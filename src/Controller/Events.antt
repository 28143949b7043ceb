-- ===== src/Controller/Events.antt =====
-- What holds of the controller over every sequence of messages and timeouts.
use f5_ipam_ctlr.Prelude.{
  Bool-cases, List, String, [], arith, contains, inl, inr, not, refl, string_eq, suc, true, zero, ℕ,
  ◌++◌, ◌==◌, ◌∷◌, ◌≡◌, ◌≢◌,
}
use f5_ipam_ctlr.Controller.{Controller, Ranges, process_ip_groups}
use f5_ipam_ctlr.Controller.Addressed.{
  IsAddressed, get_ip-IsAddressed, new_store-IsAddressed, process_ip_groups-IsAddressed,
}
use f5_ipam_ctlr.Controller.Cleanup.{IsRanges}
use f5_ipam_ctlr.Controller.Complete.{process_ip_groups_exact}
use f5_ipam_ctlr.Controller.Process.{process_ip_groups-IsValid}
use f5_ipam_ctlr.Controller.Run.{
  Event, Running, decoded, deep_equal, garbled, handle_ip_groups, ip_bytes, refresh_store, run,
  run_events, run_step, started, timeout,
}
use f5_ipam_ctlr.Manager.{Call, Client, IsClient}
use f5_ipam_ctlr.Orchestration.IpGroup.{get_all_hosts}
use f5_ipam_ctlr.Orchestration.Types.{IpGroups}
use f5_ipam_ctlr.Store.{get_ip, new_store}
use f5_ipam_ctlr.Store.Valid.{IsValid, new_store-IsValid}

module _ (c : Client) (ranges : Ranges) (law : IsClient c) (go : IsRanges ranges)
    (records : (log : List Call) → IsValid (c.on_get_records log)) where
  refresh_store-IsValid :
      (ctlr : Controller) → IsValid ctlr.store → IsValid (refresh_store c ctlr).0.store
  unfolding refresh_store
  refresh_store-IsValid ctlr v =
      elim (Bool-cases (deep_equal ctlr.store (c.on_get_records ctlr.log))) [
        | inl same ↦ rw same v
        | inr differ ↦ rw differ (records ctlr.log)
      ]

  run_step-IsValid :
      (v_interval : ℕ) (r : Running) (e : Event)
      → IsValid r.ctlr.store
      → IsValid (run_step c ranges v_interval r e).ctlr.store
  unfolding run_step
  run_step-IsValid n r (ip_bytes (garbled partial)) v = v
  run_step-IsValid n r (ip_bytes (decoded groups)) v =
      process_ip_groups-IsValid c ranges law go r.ctlr groups v
  run_step-IsValid zero r timeout v = v
  run_step-IsValid (suc n) r timeout v =
      let next = refresh_store-IsValid r.ctlr v in
      elim (Bool-cases (refresh_store c r.ctlr).1) [
        | inl changed ↦
            rw changed
              (process_ip_groups-IsValid c ranges law go (refresh_store c r.ctlr).0 r.groups next)
        | inr same ↦ rw same next
      ]

  run_events-IsValid :
      (v_interval : ℕ) (r : Running) (events : List Event)
      → IsValid r.ctlr.store
      → IsValid (run_events c ranges v_interval r events).ctlr.store
  unfolding run_events
  run_events-IsValid n r [] v = v
  run_events-IsValid n r (e ∷ events) v =
      run_events-IsValid n (run_step c ranges n r e) events (run_step-IsValid n r e v)

  -- From the start of the controller, and over every sequence of messages and timeouts, the store
  -- is well formed.
  pub run-IsValid :
      (v_interval : ℕ) (events : List Event) → IsValid (run c ranges v_interval events).ctlr.store
  unfolding run
  run-IsValid n events =
      run_events-IsValid n _ events
        (refresh_store-IsValid (record { store = new_store; log = [] }) new_store-IsValid)

run_events-append :
    (c : Client) (ranges : Ranges) (n : ℕ) (r : Running) (es fs : List Event)
    → run_events c ranges n r (es ++ fs) ≡ run_events c ranges n (run_events c ranges n r es) fs
unfolding run_events
run_events-append c ranges n r [] fs = refl
run_events-append c ranges n r (e ∷ es) fs =
    run_events-append c ranges n (run_step c ranges n r e) es fs

module _ (c : Client) (ranges : Ranges) (law : IsClient c) (go : IsRanges ranges)
    (records : (log : List Call) → IsValid (c.on_get_records log))
    (addressed : (log : List Call) → IsAddressed (c.on_get_records log))
    (hands_out : (log : List Call) (view net : String) → c.on_get_next_addr log view net ≢ "") where
  refresh_store-IsAddressed :
      (ctlr : Controller) → IsAddressed ctlr.store → IsAddressed (refresh_store c ctlr).0.store
  unfolding refresh_store
  refresh_store-IsAddressed ctlr h =
      elim (Bool-cases (deep_equal ctlr.store (c.on_get_records ctlr.log))) [
        | inl same ↦ rw same h
        | inr differ ↦ rw differ (addressed ctlr.log)
      ]

  run_step-IsAddressed :
      (v_interval : ℕ) (r : Running) (e : Event)
      → IsValid r.ctlr.store
      → IsAddressed r.ctlr.store
      → IsAddressed (run_step c ranges v_interval r e).ctlr.store
  unfolding run_step handle_ip_groups
  run_step-IsAddressed n r (ip_bytes (garbled partial)) v h = h
  run_step-IsAddressed n r (ip_bytes (decoded groups)) v h =
      process_ip_groups-IsAddressed c hands_out ranges r.ctlr groups law go v h
  run_step-IsAddressed zero r timeout v h = h
  run_step-IsAddressed (suc n) r timeout v h =
      let q = (refresh_store c r.ctlr).0 in
      let valid = refresh_store-IsValid c ranges law go records r.ctlr v in
      let next = refresh_store-IsAddressed r.ctlr h in
      elim (Bool-cases (refresh_store c r.ctlr).1) [
        | inl changed ↦
            rw changed
              (process_ip_groups-IsAddressed c hands_out ranges q r.groups law go valid next)
        | inr same ↦ rw same next
      ]

  run_events-IsAddressed :
      (v_interval : ℕ) (r : Running) (events : List Event)
      → IsValid r.ctlr.store
      → IsAddressed r.ctlr.store
      → IsAddressed (run_events c ranges v_interval r events).ctlr.store
  unfolding run_events
  run_events-IsAddressed n r [] v h = h
  run_events-IsAddressed n r (e ∷ events) v h =
      run_events-IsAddressed n (run_step c ranges n r e) events
        (run_step-IsValid c ranges law go records n r e v) (run_step-IsAddressed n r e v h)

  run-IsAddressed :
      (v_interval : ℕ) (events : List Event)
      → IsAddressed (run c ranges v_interval events).ctlr.store
  unfolding run
  run-IsAddressed n events =
      let fresh : Controller = record { store = new_store; log = [] } in
      run_events-IsAddressed n _ events
        (refresh_store-IsValid c ranges law go records fresh new_store-IsValid)
        (refresh_store-IsAddressed fresh new_store-IsAddressed)

  -- If the IPAM system takes every A record, hands out no empty address, and returns well-formed
  -- records with no host under the address "", then after any messages and timeouts and a message
  -- that is decoded, GetIP finds an address for exactly the hosts of that message; only of the host
  -- "" nothing is said.
  pub run_last_exact :
      ((log : List Call) (name ip view : String) → c.on_create_a_record log name ip view ≡ true)
      → (n : ℕ) (events : List Event) (groups : IpGroups) (host : String) → host ≢ ""
      → not
          (get_ip (run c ranges n (events ++ ip_bytes (decoded groups) ∷ [])).ctlr.store host == "")
        ≡ contains (get_all_hosts groups) host
  unfolding run run_events run_step handle_ip_groups
  run_last_exact creates n events groups host ne =
      let before = run_events c ranges n (started c ranges) events in
      let v = run-IsValid c ranges law go records n events in
      let made = process_ip_groups c ranges before.ctlr groups in
      let has_ip =
        get_ip-IsAddressed made.store host
          (process_ip_groups-IsValid c ranges law go before.ctlr groups v)
          (process_ip_groups-IsAddressed c hands_out ranges before.ctlr groups law go v
            (run-IsAddressed n events))
          ne in
      let held = process_ip_groups_exact c creates ranges before.ctlr groups host law go v ne in
      rw (run_events-append c ranges n (started c ranges) events (ip_bytes (decoded groups) ∷ []))
        (ground (arith, has_ip, held))
