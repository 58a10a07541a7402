-- ===== src/Tests/Arguments.antt =====
-- Runs of the host's command line.
use optee_ra_fork.Base.{
  arith, ◌≡◌, refl, true, false, some, [], ◌∷◌, Bytes, length, replicate, codes, pos,
}
use optee_ra_fork.Tee.{ok}
use optee_ra_fork.Params.{memref}
use optee_ra_fork.Pta.{parse_keys}
use optee_ra_fork.Host.{parse_hex, hex_text, pack_key}
use optee_ra_fork.Host.Options.{parse_command_line}
use optee_ra_fork.Host.Hex.{parse_hex-hex_text}
use optee_ra_fork.Host.CommandLine.{Accepts, IsUsable, parse_command_line-IsUsable}
use optee_ra_fork.Host.Packed.{parse_keys-pack_key}
use optee_ra_fork.Tests.Samples.{quiet, idle}

parse_hex-hex_text_example :
    parse_hex true (hex_text (0 ∷ 171 ∷ 255 ∷ [])) ≡ some (0 ∷ 171 ∷ 255 ∷ [])
parse_hex-hex_text_example =
    parse_hex-hex_text (0 ∷ 171 ∷ 255 ∷ []) (omega arith, (omega arith, (omega arith, tt)))

-- `strtol` of any text is 3 here.
parse_command_line-IsUsable_example : Accepts IsUsable (
    parse_command_line true
      (λ text. pos 3)
      false
      (codes "--key-hex" ∷ codes "0x0102" ∷ codes "--loop" ∷ codes "3" ∷ codes "--perf" ∷ []))
parse_command_line-IsUsable_example =
    parse_command_line-IsUsable true (λ text. pos 3) false
      (codes "--key-hex" ∷ codes "0x0102" ∷ codes "--loop" ∷ codes "3" ∷ codes "--perf" ∷ [])

parse_keys-pack_key_example :
    (packed : Bytes) × (pack_key true
        (some (7 ∷ 8 ∷ []))
        (some (replicate 32 1))
        (some (replicate 32 2))
      ≡ some (some packed))
    × (parse_keys true (memref (some packed) (length packed)) quiet idle ≡ (
      ok (record {
        pub_x = replicate 32 1;
        pub_y = replicate 32 2;
        black_key = some (7 ∷ 8 ∷ []);
        black_len = 2;
      }),
      idle,
    ))
parse_keys-pack_key_example =
    parse_keys-pack_key (7 ∷ 8 ∷ []) (replicate 32 1) (replicate 32 2) quiet idle refl refl
      (omega arith)
