-- ===== src/Controller/Run.antt =====
-- `Run` of the controller: the events that it waits for, and what it does at each. The order of the
-- events is that in which the two channels of the `select` deliver them.
use f5_ipam_ctlr.Prelude.{
  Bool, List, Option, String, [], false, if◌then◌else◌, none, not, some, str_beq, string_eq, suc,
  true, zero, ℕ, ◌&&◌, ◌∷◌,
}
use f5_ipam_ctlr.Controller.{Controller, Ranges, process_ip_groups, says}
use f5_ipam_ctlr.Manager.{Client, get_records}
use f5_ipam_ctlr.Orchestration.Types.{IpGroups}
use f5_ipam_ctlr.Prelude.GoMap.{GoMap, lookup}
use f5_ipam_ctlr.Store.{HostSet, Store, new_store}

-- What arrives on `oChan`: bytes that `gob` decodes, or bytes at which it fails, with the groups
-- that it has stored by then.
pub data Bytes : Type 0 where
  decoded : IpGroups → Bytes
  garbled : IpGroups → Bytes

pub data Event : Type 0 where
  ip_bytes : Bytes → Event
  timeout : Event

-- The controller with the `ipGroup` of its goroutine, and the calls of `AnnotateResources`, newest
-- first.
pub record Running : Type 0 where
  pub ctlr : Controller
  pub groups : IpGroups
  pub annotated : List (String × List String)

module _ {V : Type 0} (eq : V → V → Bool) where
  sub_value : V → Option V → Bool
  sub_value v none = false
  sub_value v (some w) = eq v w

  -- Every entry of the first map is one of the second.
  unfoldable pub sub_map : GoMap String V → GoMap String V → Bool
  unfolding sub_value
  sub_map [] n = true
  sub_map ((k, v) ∷ m) n = sub_value v (lookup k n) && sub_map m n

-- `reflect.DeepEqual` on maps: the same keys, with equal values.
unfoldable pub map_equal : {V : Type 0} → (V → V → Bool) → GoMap String V → GoMap String V → Bool
unfolding sub_map
map_equal eq m n = sub_map eq m n && sub_map (λ v w. eq w v) n m

-- `reflect.DeepEqual` on stores.
unfoldable pub deep_equal : Store → Store → Bool
unfolding map_equal
deep_equal s t =
    map_equal (map_equal str_beq) s.records t.records
    && (map_equal str_beq s.netviews t.netviews && map_equal str_beq s.cidrs t.cidrs)

module _ (c : Client) where
  -- `refreshStore`
  unfoldable pub refresh_store : Controller → Controller × Bool
  unfolding deep_equal
  refresh_store ctlr =
      let ipam_store = c.on_get_records ctlr.log in
      let asked = says ctlr get_records in
      if not (deep_equal ctlr.store ipam_store)
      then (record asked { store = ipam_store }, true)
      else (asked, false)

module _ (ranges : Ranges) where
  -- The calls of `AnnotateResources` that `writeIPHosts` makes.
  unfoldable pub write_ip_hosts :
      GoMap String HostSet → List (String × List String) → List (String × List String)
  write_ip_hosts [] annotated = annotated
  write_ip_hosts ((ip, rec) ∷ records) annotated =
      write_ip_hosts records ((ip, ranges.range_keys rec) ∷ annotated)

module _ (c : Client) (ranges : Ranges) where
  -- `handleIPGroups`; the groups are made anew before the bytes are decoded into them.
  unfoldable pub handle_ip_groups : Running → Bytes → Running
  unfolding write_ip_hosts
  handle_ip_groups r (garbled partial) = record r { groups = partial }
  handle_ip_groups r (decoded groups) =
      let ctlr = process_ip_groups c ranges r.ctlr groups in
      record {
        ctlr = ctlr;
        groups = groups;
        annotated = write_ip_hosts ranges ctlr.store.records r.annotated;
      }

  -- The body of the endless loop, by `vInterval` and the event that the `select` receives; without
  -- an interval there is no timeout to receive.
  unfoldable pub run_step : ℕ → Running → Event → Running
  unfolding handle_ip_groups refresh_store
  run_step v_interval r (ip_bytes bytes) = handle_ip_groups r bytes
  run_step zero r timeout = r
  run_step (suc v_interval) r timeout =
      let (ctlr, changed) = refresh_store c r.ctlr in
      if changed
      then record r { ctlr = process_ip_groups c ranges ctlr r.groups }
      else record r { ctlr = ctlr }

  unfoldable pub run_events : ℕ → Running → List Event → Running
  unfolding run_step
  run_events v_interval r [] = r
  run_events v_interval r (e ∷ events) = run_events v_interval (run_step v_interval r e) events

  -- `NewController`, and `Run` up to the loop.
  abbrev pub started : Running
  started =
      let fresh : Controller = record { store = new_store; log = [] } in
      record { ctlr = (refresh_store c fresh).0; groups = []; annotated = [] }

  -- `Run`, over the events of a run.
  unfoldable pub run : ℕ → List Event → Running
  unfolding run_events
  run v_interval events = run_events v_interval started events
