-- ===== src/Usdhc/Operations.antt =====
-- The operations of the driver: all of them end, and start commands only in turn.
use optee_ra_fork.Base.{ℕ, ◌≡◌, refl, ap, ◌∙◌, Bool, true, false, List, ◌∷◌, arith, if◌then◌else◌}
use optee_ra_fork.Tee.{busy, generic}
use optee_ra_fork.Usdhc.Registers
use optee_ra_fork.Usdhc.Registers.{bit32, block_size, part_access_rpmb}
use optee_ra_fork.Usdhc.Io.{Board, Ctx, Dev, Act, pure, context, set_context}
use optee_ra_fork.Usdhc.Controller.{usdhc_base}
use optee_ra_fork.Usdhc.Command.{Transfer, Response, send_cmd, command_word}
use optee_ra_fork.Usdhc.Card.{
  plain, checked, block_count_arg, is_send, op_cond_step, read_cid, card_identify, read_ext_csd,
  switch_partition, ready_step, wait_card_ready, controller_state_foreign, bring_up, still_ours,
  imx_usdhc_init, imx_usdhc_dev_info, transfer_cmd, rpmb_xfer,
}
use optee_ra_fork.Usdhc.Rules.{
  Triple, Expires, Triple-weaken, Triple-mono, Triple-pure, Triple-throw, Triple-bind, Triple-board,
  Triple-context, Triple-set_context, Triple-if,
}
use optee_ra_fork.Usdhc.Protocol.{Entry, uses_data, IsSafe, Sent}
use optee_ra_fork.Usdhc.Quiet.{
  Quiet, Quiet-pure, Quiet-throw, Quiet-bind, Quiet-note, Quiet-read, Quiet-context,
  Quiet-set_context, Quiet-if, Quiet-poll,
}
use optee_ra_fork.Usdhc.BringUp.{
  usdhc_pads_configure-Quiet, usdhc_bus_clock_ensure-Quiet, usdhc_clock_enable-Quiet,
  set_clock-Quiet, reset_controller-Quiet,
}
use optee_ra_fork.Usdhc.Setup.{Triple-fact}
use optee_ra_fork.Usdhc.Sending.{IsCommand, entry_of, usdhc_base_lem, send_cmd_lem}
use optee_ra_fork.Usdhc.Keeps.{
  Keeps, Triple-any_log, Keeps-of_Quiet, Keeps-pure, Keeps-bind, Keeps-board, Keeps-context,
  Keeps-if, Keeps-guard, Keeps-poll, Keeps-send_cmd,
}

ruleset keeps_rules = (
  Keeps-pure, Keeps-bind, Keeps-board, Keeps-context, Keeps-if, Keeps-of_Quiet, Quiet-note,
  Quiet-throw, Quiet-set_context, set_clock-Quiet, refl,
)

plain-IsCommand :
    (idx arg typ : ℕ)
    → uses_data (command_word (plain idx arg typ)) ≡ false
    → IsCommand (plain idx arg typ)
plain-IsCommand idx arg typ h = record { data_bit = h; fits = tt }

-- SET_BLOCK_COUNT in the log of commands, and the command that moves the blocks.
abbrev pub block_count_entry : ℕ → Bool → Entry
block_count_entry nblocks is_write =
    entry_of (plain Registers.set_block_count (block_count_arg nblocks is_write) checked)

abbrev pub transfer_entry : Transfer → Entry
transfer_entry t = entry_of (transfer_cmd t)

module _ (b : Board) (expires : Expires b) (mapped : b.usdhc_mapped ≡ true) where
  usdhc_base-Keeps : Keeps b usdhc_base
  usdhc_base-Keeps = record { run = usdhc_base_lem b mapped }

  plain-Keeps :
      (idx arg typ : ℕ)
      → uses_data (command_word (plain idx arg typ)) ≡ false
      → Keeps b (send_cmd (plain idx arg typ))
  plain-Keeps idx arg typ h = Keeps-send_cmd expires mapped _ (plain-IsCommand idx arg typ h)

  op_cond_step-Keeps : Keeps b op_cond_step
  unfolding op_cond_step
  op_cond_step-Keeps = search (keeps_rules, plain-Keeps) depth 20

  read_cid-Keeps : Keeps b read_cid
  unfolding read_cid
  read_cid-Keeps =
      Keeps-bind (plain-Keeps _ _ _ refl)
        (λ r. Keeps-board _ (Keeps-of_Quiet (Quiet-set_context _ (λ c h. h))))

  card_identify-Keeps : Keeps b card_identify
  unfolding card_identify
  card_identify-Keeps =
      search
        (
          keeps_rules,
          plain-Keeps,
          Keeps-poll,
          op_cond_step-Keeps,
          read_cid-Keeps,
          usdhc_base-Keeps,
          set_clock-Quiet b expires,
          expires,
        )
        depth 60

  read_ext_csd-Keeps : Keeps b read_ext_csd
  unfolding read_ext_csd
  read_ext_csd-Keeps =
      Keeps-bind (Keeps-send_cmd expires mapped _ (record { data_bit = refl; fits = omega arith }))
        (λ r. Keeps-pure r.received)

  switch_partition-Keeps : (part : ℕ) → Keeps b (switch_partition part)
  unfolding switch_partition
  switch_partition-Keeps part = search (keeps_rules, plain-Keeps) depth 20

  ready_step-Quiet : Quiet b ready_step
  unfolding ready_step
  ready_step-Quiet = Quiet-bind (Quiet-read _) (λ v. Quiet-pure _)

  usdhc_base-Quiet : Quiet b usdhc_base
  usdhc_base-Quiet = record { run = λ cs. usdhc_base_lem b mapped }

  pub wait_card_ready-Quiet : Quiet b wait_card_ready
  unfolding wait_card_ready
  wait_card_ready-Quiet =
      Quiet-bind usdhc_base-Quiet
        λ _. Quiet-poll expires _ ready_step-Quiet (Quiet-pure tt) (Quiet-throw busy)

controller_state_foreign-Quiet : (b : Board) → Quiet b controller_state_foreign
unfolding controller_state_foreign
controller_state_foreign-Quiet b =
    search (Quiet-pure, Quiet-bind, Quiet-read, Quiet-context, Quiet-if) depth 20

-- A fact about the board that holds wherever the action starts.
Triple-from :
    {b : Board} {X : Type 0} {A : Type 0} {P : Dev → Type 0} {m : Act A} {Q : A → Dev → Type 0}
    {F : Dev → Type 0}
    → ((d : Dev) → P d → X)
    → (X → Triple b P m Q F)
    → Triple b P m Q F
Triple-from f t = record { run = λ d p. (t (f d p)).run d p }

module _ (b : Board) (expires : Expires b) where
  abbrev pub Up : Dev → Type 0
  Up d = IsSafe b d × (b.usdhc_mapped ≡ true)

  bring_up_lem : Triple b (IsSafe b) bring_up (λ _. Up) (IsSafe b)
  unfolding bring_up
  bring_up_lem = Triple-board _ (
      Triple-bind
        (Triple-if {Q = λ _. Up} b.usdhc_mapped (λ h. Triple-pure tt (λ d s. (s, h)))
          (λ _. Triple-throw generic (λ d s. s)))
        (λ _. Triple-fact λ mapped. Triple-bind (quiet (usdhc_pads_configure-Quiet b)) λ _.
          Triple-bind (quiet (usdhc_clock_enable-Quiet b)) λ _.
            Triple-bind (quiet (reset_controller-Quiet b expires)) λ _.
              Triple-bind (card_identify-Keeps b expires mapped).run λ _.
                Triple-bind (read_ext_csd-Keeps b expires mapped).run λ ext_csd.
                  Triple-set_context _
                    (λ d s. (record { in_turn = s.in_turn; reachable = λ _. mapped }, mapped))))
    where
      quiet :
          {A : Type 0} {m : Act A} → Quiet b m → Triple b (IsSafe b) m (λ _. IsSafe b) (IsSafe b)
      quiet q = (Keeps-of_Quiet q).run

  forget-Keeps : Keeps b (set_context (λ c. record c { inited = false; cur_part = 0xff }))
  forget-Keeps = Keeps-of_Quiet (Quiet-set_context _ (λ c h. cc))

  still_ours-Keeps : b.usdhc_mapped ≡ true → Keeps b still_ours
  unfolding still_ours
  still_ours-Keeps mapped = Keeps-bind (usdhc_base-Keeps b expires mapped) λ _.
      Keeps-bind
        (Keeps-board _ (
          Keeps-guard b.ccm_mapped (λ h. Keeps-of_Quiet (usdhc_bus_clock_ensure-Quiet b h))
            (Keeps-pure tt)))
        λ _. Keeps-bind (Keeps-of_Quiet (controller_state_foreign-Quiet b)) λ foreign.
          Keeps-if foreign (Keeps-bind forget-Keeps (λ _. Keeps-pure false)) (Keeps-pure true)

  abbrev StillOurs : Bool → Dev → Type 0
  StillOurs ready d = IsSafe b d × (ready ≡ true → b.usdhc_mapped ≡ true)

  ready_lem :
      Triple b
        (IsSafe b)
        (context λ c. if c.inited then still_ours else pure false)
        StillOurs
        (IsSafe b)
  ready_lem = Triple-context _ λ c.
      Triple-if c.inited
        (λ up.
          Triple-from (λ d s. s.0.reachable (ap (λ (k : Ctx). k.inited) s.1 ∙ up))
            λ mapped.
              Triple-weaken (λ d s. s.0)
                (Triple-mono (still_ours-Keeps mapped).run (λ a d s. (s, λ _. mapped)) (λ d s. s)))
        (λ down. Triple-pure false (λ d s. (s.0, λ h. cc)))

  pub imx_usdhc_init_lem : Triple b (IsSafe b) imx_usdhc_init (λ _. Up) (IsSafe b)
  unfolding imx_usdhc_init
  imx_usdhc_init_lem = Triple-bind ready_lem λ ready.
      Triple-if ready (λ h. Triple-pure tt (λ d s. (s.0, s.1 h)))
        (λ h. Triple-weaken (λ d s. s.0) bring_up_lem)

  pub imx_usdhc_dev_info_lem : Triple b (IsSafe b) imx_usdhc_dev_info (λ _. Up) (IsSafe b)
  unfolding imx_usdhc_dev_info
  imx_usdhc_dev_info_lem =
      Triple-bind imx_usdhc_init_lem (λ _. Triple-context _ (λ c. Triple-pure _ (λ d s. s.0)))

  -- A transfer ends as its last command does, which follows SET_BLOCK_COUNT.
  pub rpmb_xfer-after :
      (t : Transfer) (nblocks : ℕ) (Q : List Entry → Response → Dev → Type 0)
      → (b.usdhc_mapped ≡ true
          → (cs : List Entry)
          → Triple b
              (Sent b (block_count_entry nblocks (is_send t) ∷ cs))
              (send_cmd (transfer_cmd t))
              (Q cs)
              (IsSafe b))
      → Triple b
          (IsSafe b)
          (rpmb_xfer t nblocks)
          (λ bytes d.
            (cs : List Entry) × (r : Response) × Q cs r d
            × (bytes ≡ r.received)
            × (b.usdhc_mapped ≡ true))
          (IsSafe b)
  unfolding rpmb_xfer
  rpmb_xfer-after t nblocks Q last = Triple-bind imx_usdhc_init_lem λ _. Triple-fact λ mapped.
      Triple-bind (switch_partition-Keeps b expires mapped part_access_rpmb).run λ _.
        Triple-bind (Keeps-of_Quiet (wait_card_ready-Quiet b expires mapped)).run λ _.
          Triple-any_log λ cs.
            Triple-bind (send_cmd_lem b expires mapped cs _ (plain-IsCommand _ _ _ refl)) λ r.
              Triple-weaken (λ d s. s.0)
                (Triple-bind (last mapped cs)
                  λ r'. Triple-pure r'.received (λ d q. (cs, r', q, refl, mapped)))
