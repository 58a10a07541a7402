-- ===== src/Pta/Caam/BlackKey.antt =====
-- What `cmd_convert_to_blackkey` of remote_attestation.c replies, on every path.
use optee_ra_fork.Base.{Bool, not, none, some, ◌&&◌, ◌||◌, ◌==◌, ltb, if◌then◌else◌, Bytes, length}
use optee_ra_fork.Tee.{Error, out_of_memory, generic, bad_parameters, short_buffer, ◌>>=◌, ◌>>◌}
use optee_ra_fork.Params.{ParamTypes, Params, buffer_of, size_of, is_null}
use optee_ra_fork.Pta.Caam.{
  CaamStatus, out_memory, bad_param, short_buf, failure, Reply, with_size, is_convert_types,
  sec_size,
}
use optee_ra_fork.Pta.Buffers.{filled}

-- The status of the CAAM driver that an error stands for.
pub data Means : CaamStatus → Error → Type 0 where
  memory : Means out_memory out_of_memory
  parameter : Means bad_param bad_parameters
  short : Means short_buf short_buffer
  other : Means failure generic

-- The reply with a black key: the size that is needed if it does not fit, and else the key in the
-- buffer if there is one.
unfoldable pub blackkey_reply : Bytes → Params → Reply
blackkey_reply serialized params =
    if ltb (size_of params.p1) (length serialized)
    then record {
      params = record params { p1 = with_size params.p1 (length serialized) };
      status = some short_buffer;
    }
    else record { params = record params { p1 = filled params.p1 serialized }; status = none }

-- The checks of `cmd_convert_to_blackkey`.
abbrev pub is_convertible : ParamTypes → Params → Bool
is_convertible param_types params =
    is_convert_types param_types
    && not (is_null (buffer_of params.p0) || not (size_of params.p0 == sec_size))
