-- ===== src/Infoblox/Replay.antt =====
-- `IBloxClient` of pkg/manager/infoblox.go as the `Client` of pkg/manager/manager.go: its state is
-- what the calls made so far have left.
use f5_ipam_ctlr.Prelude.{
  List, Option-cases, String, [], contains, inl, inr, refl, str_beq_refl, string_eq, true, ℕ, ◌∷◌,
  ◌≡◌, ◌⊎◌,
}
use f5_ipam_ctlr.Controller.{Ranges}
use f5_ipam_ctlr.Controller.Cleanup.{IsRanges}
use f5_ipam_ctlr.Controller.Events.{run-IsValid}
use f5_ipam_ctlr.Controller.Run.{Event, run}
use f5_ipam_ctlr.Infoblox.{
  IBloxClient, Server, a_object, cname_object, cname_to_a, create_a_record, create_cname_record,
  delete_a_record, delete_cname_record, release_addr, update, update_a, update_cname, update_cnames,
}
use f5_ipam_ctlr.Infoblox.Content.{get_records-IsValid}
use f5_ipam_ctlr.Infoblox.Records.{get_records}
use f5_ipam_ctlr.Infoblox.Refs.{get_next_addr}
use f5_ipam_ctlr.Manager.{Call, Client, IsClient}
use f5_ipam_ctlr.Prelude.GoMap.{lookup}
use f5_ipam_ctlr.Store.Valid.{IsValid}

module _ (s : Server) where
  unfoldable pub call : IBloxClient → Call → IBloxClient
  unfolding create_a_record delete_a_record create_cname_record delete_cname_record cname_to_a
      get_next_addr get_records
  call cl (Call.create_a_record host ip netview) = (create_a_record s cl host ip netview).0
  call cl (Call.delete_a_record host ip netview cidr) = delete_a_record s cl host ip netview cidr
  call cl (Call.create_cname_record host canonical netview) =
      create_cname_record s cl host canonical netview
  call cl (Call.delete_cname_record host ip netview cidr) =
      delete_cname_record s cl host ip netview cidr
  call cl (Call.cname_to_a avail host ip netview cidr) =
      (cname_to_a s cl avail host ip netview cidr).0
  call cl (Call.get_next_addr netview cidr) = (get_next_addr s cl netview cidr).0
  call cl (Call.release_addr netview cidr ip) = release_addr s cl netview cidr ip
  call cl Call.get_records = (get_records s cl).0

  -- The client after the calls, newest first; `NewInfobloxClient` makes an empty `recordRef`.
  unfoldable pub after : List Call → IBloxClient
  unfolding call
  after [] = record { record_ref = []; requests = [] }
  after (c ∷ log) = call (after log) c

  unfoldable pub infoblox_client : Client
  unfolding after
  infoblox_client = record {
    on_create_a_record = λ log host ip netview. (create_a_record s (after log) host ip netview).1;
    on_cname_to_a =
        λ log avail host ip netview cidr. (cname_to_a s (after log) avail host ip netview cidr).1;
    on_get_next_addr = λ log netview cidr. (get_next_addr s (after log) netview cidr).1;
    on_get_records = λ log. (get_records s (after log)).1;
  }

  update_cnames_answer :
      (cl : IBloxClient) (a_record netview : String) (hosts : List String)
      → ((update_cnames s cl a_record netview hosts).1.0 ≡ a_record)
        ⊎ ((update_cnames s cl a_record netview hosts).1.0 ≡ "")
  unfolding update_cnames
  update_cnames_answer cl a_record netview [] = inl refl
  update_cnames_answer cl a_record netview (host ∷ hosts) =
      elim (Option-cases (lookup host cl.record_ref)) [
        | inl miss ↦ rw (update_cnames, miss) (inr refl)
        | inr (old_ref, found) ↦
            let r = update_cname (cname_object host a_record netview) old_ref in
            rw (update_cnames, found)
              (update_cnames_answer (update s cl host r) a_record netview hosts)
      ]

  cname_to_a_answer :
      (cl : IBloxClient) (avail : List String) (del_host ip netview cidr : String)
      → (contains avail (cname_to_a s cl avail del_host ip netview cidr).1.0 ≡ true)
        ⊎ ((cname_to_a s cl avail del_host ip netview cidr).1.0 ≡ "")
  unfolding cname_to_a contains
  cname_to_a_answer cl [] del_host ip netview cidr = inr refl
  cname_to_a_answer cl (host ∷ hosts) del_host ip netview cidr =
      elim (Option-cases (lookup del_host cl.record_ref)) [
        | inl miss ↦ rw (cname_to_a, miss) (inr refl)
        | inr (old_ref, found) ↦
            let gone = delete_cname_record s cl host ip netview cidr in
            let r = update_a (a_object host ip "") old_ref in
            elim (update_cnames_answer (update s gone host r) host netview hosts) [
              | inl first ↦ inl (rw (cname_to_a, found, first, str_beq_refl host) refl)
              | inr empty ↦ inr (rw (cname_to_a, found, empty) refl)
            ]
      ]

  -- The Infoblox client keeps what the controller relies on.
  infoblox_client-IsClient : IsClient infoblox_client
  unfolding infoblox_client
  infoblox_client-IsClient = record {
    new_a =
        λ log avail host ip netview cidr. cname_to_a_answer (after log) avail host ip netview cidr;
  }

  -- On Infoblox, whatever its server answers, the store of the controller is well formed after any
  -- messages and timeouts.
  pub run_infoblox-IsValid :
      (ranges : Ranges) (v_interval : ℕ) (events : List Event)
      → IsRanges ranges
      → IsValid (run infoblox_client ranges v_interval events).ctlr.store
  unfolding infoblox_client
  run_infoblox-IsValid ranges n events go =
      run-IsValid infoblox_client ranges infoblox_client-IsClient go
        (λ log. get_records-IsValid s (after log)) n events
