-- ===== src/Daemon/Outbound/Passed.antt =====
-- The gates of crates/crewd/src/handlers.rs: what holds when they are passed, and that a denial comes
-- before everything else.
use mcp_crewd_rs.Base.{ℕ, String, ◌≡◌, refl, ap, ◌∙◌, true, not, Option, none, some, arith}
use mcp_crewd_rs.Error.{BusError, ok, err}
use mcp_crewd_rs.Acl.{Acl, Capability, ReachVia, check, is_registered, check_reach}
use mcp_crewd_rs.Quota.{note_and_check_sender, note_and_check_capability, check_queue_depth}
use mcp_crewd_rs.Store.Deliveries.{pending_deliveries_count}
use mcp_crewd_rs.Daemon.{World, DaemonState, audit}
use mcp_crewd_rs.Daemon.Success.{
  Success, then_lift, then_gets, then_fail_if, then_draw, then_quota, then_checked, checked_last,
  Success_imp,
}
use mcp_crewd_rs.Daemon.Runs.{denied, run_lift, run_gets, run_fail_if, check-denied}
use mcp_crewd_rs.Daemon.Outbound.{authorize_outbound, admit_rate, admit_outbound, denied_reach}

-- What authorize_outbound checks
abbrev pub Authorized : Acl → String → String → Capability → ReachVia → Type 0
Authorized acl from to cap via =
    (check acl from cap ≡ ok tt)
    × (is_registered acl to ≡ true)
    × (check_reach acl from to via ≡ ok tt)

-- What admit_outbound checks: the room in the recipient's queue, and the rates of the sender
abbrev pub WithinRates : DaemonState → ℕ → String → Capability → ℕ → Type 0
WithinRates d now from cap units =
    let sender = note_and_check_sender d.quota from now units in
    (sender.0 ≡ ok tt) × ((note_and_check_capability sender.1 from cap now).0 ≡ ok tt)

abbrev pub HasRoom : DaemonState → String → Type 0
HasRoom d to = check_queue_depth d.quota (pending_deliveries_count to d.store) ≡ ok tt

-- The two gates change neither the store nor the access control.
abbrev pub Apart : DaemonState → DaemonState → Type 0
Apart d e = (e.store ≡ d.store) × (e.acl ≡ d.acl)

module _ (w : World) where
  pub authorize-Authorized :
      (from to : String) (cap : Capability) (via : ReachVia) (d : DaemonState)
      → Success
          (λ _ e. Authorized d.acl from to cap via × (e ≡ d))
          (authorize_outbound w from to cap via d)
  unfolding authorize_outbound
  authorize-Authorized from to cap via d =
      let Q : Unit {0} → DaemonState → Type 0 = λ _ e. Authorized d.acl from to cap via × (e ≡ d) in
      then_gets Q _ _ d (
        then_lift Q (check d.acl from cap) _ d λ done allowed.
          then_fail_if Q (not (is_registered d.acl to)) _ _ d λ registered.
            checked_last Q w (check_reach d.acl from to via) (denied_reach none from to) d
              (λ e. Authorized d.acl from to cap via × (e ≡ d))
              (λ reached. ((allowed, ground (arith, registered), reached), refl)))

  pub admit_rate-WithinRates :
      (from : String) (to : Option String) (cap : Capability) (units : ℕ) (d : DaemonState)
      → Success
          (λ _ e. WithinRates d (w.millis d.tick) from cap units × Apart d e)
          (admit_rate w from to cap units d)
  unfolding admit_rate
  admit_rate-WithinRates from to cap units d =
      let Q : Unit {0} → DaemonState → Type 0 =
        λ _ e. WithinRates d (w.millis d.tick) from cap units × Apart d e in
      then_draw Q _ _ d (
        then_quota Q _ _ _ (
          then_checked Q w _ _ _ _ λ sender. then_quota Q _ _ _ (
            checked_last Q w _ _ _ (λ e. WithinRates d (w.millis d.tick) from cap units × Apart d e)
              (λ rate. ((sender, rate), (refl, refl))))))

  pub admit-HasRoom :
      (from to : String) (cap : Capability) (units : ℕ) (d : DaemonState)
      → Success
          (λ _ e. HasRoom d to × WithinRates d (w.millis d.tick) from cap units × Apart d e)
          (admit_outbound w from to cap units d)
  unfolding admit_outbound
  admit-HasRoom from to cap units d =
      let Q : Unit {0} → DaemonState → Type 0 =
        λ _ e. HasRoom d to × WithinRates d (w.millis d.tick) from cap units × Apart d e in
      then_gets Q _ _ d (
        then_gets Q _ _ d (
          then_checked Q w _ _ _ d λ room.
            Success_imp _ Q _ (λ _ e rest. (room, rest.0, rest.1))
              (admit_rate-WithinRates from (some to) cap units d)))

  -- A sender that may send to a registered cell that it does not reach
  pub authorize-denied :
      (from to : String) (cap : Capability) (via : ReachVia) (x : BusError) (d : DaemonState)
      → check d.acl from cap ≡ ok tt
      → is_registered d.acl to ≡ true
      → check_reach d.acl from to via ≡ err x
      → authorize_outbound w from to cap via d ≡ denied x (audit w (denied_reach none from to) d)
  unfolding authorize_outbound
  authorize-denied from to cap via x d allowed registered unreached =
      run_gets _ _ d
      ∙ run_lift _ _ d tt allowed
      ∙ run_fail_if _ _ _ d (ap not registered)
      ∙ check-denied w _ x (denied_reach none from to) d unreached
