-- ===== src/Controller/Cleanup.antt =====
-- What the second loop of `processIPGroups` takes out of the store.
use f5_ipam_ctlr.Prelude.{
  Bool, Bool-cases, List, Option-cases, String, [], arith, contains, if◌then◌else◌, inl, inr,
  is_empty, not, occurrences, occurrences-append, refl, remove_element, str_beq_iff, string_eq,
  true, ◌&&◌, ◌+◌, ◌==◌, ◌∙◌, ◌∷◌, ◌≡◌, ◌≢◌, ◌⊎◌,
}
use f5_ipam_ctlr.Controller.{
  Controller, Ranges, Sweep, a, cname, drop_record, set_type, sweep_host, sweep_hosts,
}
use f5_ipam_ctlr.Manager.{Client, IsClient}
use f5_ipam_ctlr.Prelude.GoMap.{IsMap, has, insert, is_some, lookup, lookup-insert}
use f5_ipam_ctlr.Store.{HostSet, Store}
use f5_ipam_ctlr.Store.Count.{holders, holders-insert}
use f5_ipam_ctlr.Store.Delete.{shrink-IsValid}
use f5_ipam_ctlr.Store.Valid.{IsValid, insert-IsHostSet}
use f5_ipam_ctlr.Store.View.{type_of}

-- What Go says of a `range` over a map: it visits each key once. A key that the loop adds, which is
-- "" where `CNAMEToA` fails, may be visited or not.
pub record IsRanges (r : Ranges) : Type 0 where
  pub once :
      (hosts : HostSet) (host : String)
      → IsMap hosts
      → host ≢ ""
      → occurrences (r.range_hosts hosts) host ≡ (if has host hosts then 1 else 0)
  pub only_keys :
      (hosts : HostSet) (host : String)
      → contains (r.range_keys hosts) host ≡ true
      → has host hosts ≡ true

-- The hosts of two states of the store are the same, except perhaps for a host "".
pub record SameHeld (s t : Store) : Type 0 where
  pub valid : IsValid s → IsValid t
  pub grows :
      (ip host : String) → is_some (type_of s ip host) ≡ true → is_some (type_of t ip host) ≡ true
  pub same :
      (ip host : String) → host ≢ "" → is_some (type_of t ip host) ≡ is_some (type_of s ip host)
  pub held : (host : String) → host ≢ "" → holders t.records host ≡ holders s.records host

pub SameHeld-refl : (s : Store) → SameHeld s s
SameHeld-refl s = record {
  valid = λ v. v;
  grows = λ ip host e. e;
  same = λ ip host n. refl;
  held = λ host n. refl;
}

pub SameHeld-trans : (s t u : Store) → SameHeld s t → SameHeld t u → SameHeld s u
SameHeld-trans s t u f g = record {
  valid = λ v. g.valid (f.valid v);
  grows = λ ip host e. g.grows ip host (f.grows ip host e);
  same = λ ip host n. g.same ip host n ∙ f.same ip host n;
  held = λ host n. g.held host n ∙ f.held host n;
}

-- `ctlr.store.Records[ip][newA] = A` adds no host but perhaps "".
set_type-SameHeld :
    (st : Store) (ip new_a record_type : String)
    → (is_some (type_of st ip new_a) ≡ true) ⊎ (new_a ≡ "")
    → SameHeld st (set_type st ip new_a record_type)
unfolding set_type type_of
set_type-SameHeld st ip new_a record_type h = elim (Option-cases (lookup ip st.records)) [
  | inl miss ↦ rw (miss, set_type) (SameHeld-refl st)
  | inr (hosts, found) ↦
      rw (found, set_type)
        (record {
          valid = λ v.
              shrink-IsValid st ip hosts (insert new_a record_type hosts) v found
                (insert-IsHostSet new_a record_type hosts (v.sets ip hosts found).distinct);
          grows = λ ip' host e. ground (
            arith,
            lookup-insert ip ip' (insert new_a record_type hosts) st.records,
            lookup-insert new_a host record_type hosts,
            str_beq_iff ip ip',
          );
          same = λ ip' host n. ground (
            arith,
            lookup-insert ip ip' (insert new_a record_type hosts) st.records,
            lookup-insert new_a host record_type hosts,
            str_beq_iff ip ip',
            str_beq_iff new_a host,
          );
          held = λ host n. ground (
            arith,
            holders-insert st.records ip hosts (insert new_a record_type hosts) host found,
            lookup-insert new_a host record_type hosts,
            str_beq_iff new_a host,
          );
        })
]

contains-remove_element :
    (xs : List String) (x h : String)
    → contains (remove_element xs x) h ≡ true
    → contains xs h ≡ true
unfolding contains remove_element
contains-remove_element [] x h e = e
contains-remove_element (y ∷ xs) x h e = ground (arith, contains-remove_element xs x h)

module _ (c : Client) (ranges : Ranges) (law : IsClient c) where
  drop_record-SameHeld :
      (ctlr : Controller) (avail : List String) (ip netview cidr host record_type : String)
      → ((h : String) → contains avail h ≡ true → is_some (type_of ctlr.store ip h) ≡ true)
      → SameHeld ctlr.store (drop_record c ranges ctlr avail ip netview cidr host record_type).store
  unfolding drop_record
  drop_record-SameHeld ctlr avail ip netview cidr host record_type known =
      let (new_a, err) = c.on_cname_to_a ctlr.log avail host ip netview cidr in
      elim (Bool-cases (record_type == a)) [
        | inl is_a ↦ rw is_a (elim (Bool-cases (is_empty avail)) [
          | inl alone ↦ rw alone (SameHeld-refl ctlr.store)
          | inr others ↦ rw others (
              set_type-SameHeld ctlr.store ip new_a a
                (elim (law.new_a ctlr.log avail host ip netview cidr) [
                  | inl one ↦ inl (known new_a one)
                  | inr blank ↦ inr blank
                ]))
        ])
        | inr not_a ↦ rw not_a (elim (Bool-cases (record_type == cname)) [
          | inl is_cname ↦ rw is_cname (SameHeld-refl ctlr.store)
          | inr neither ↦ rw neither (SameHeld-refl ctlr.store)
        ])
      ]

  -- What the inner loop keeps: the hosts that are available stand in the record of the address.
  abbrev pub Known : Sweep → String → Type 0
  Known s ip =
      (h : String) → contains s.avail_hosts h ≡ true → is_some (type_of s.ctlr.store ip h) ≡ true

  -- Whether the sweep of the address removes the host.
  abbrev pub goes : List String → Store → String → String → Bool
  goes groups st ip host = not (contains groups host) && is_some (type_of st ip host)

  pub record Swept (groups : List String) (ip : String) (visits : List String) (s t : Sweep)
      : Type 0 where
    pub store : SameHeld s.ctlr.store t.ctlr.store
    pub known : Known t ip
    pub removed :
        (host : String)
        → host ≢ ""
        → occurrences t.to_remove host
          ≡ occurrences s.to_remove host
            + (if goes groups s.ctlr.store ip host then occurrences visits host else 0)

  sweep_host-Swept :
      (groups : List String) (ip netview cidr : String) (s : Sweep) (x : String)
      → Known s ip
      → Swept groups ip (x ∷ []) s (sweep_host c ranges groups ip netview cidr s x)
  unfolding sweep_host occurrences
  sweep_host-Swept groups ip netview cidr s x known =
      elim (Option-cases (type_of s.ctlr.store ip x)) [
        | inl absent ↦
            rw (absent, sweep_host)
              (record {
                store = SameHeld-refl s.ctlr.store;
                known = known;
                removed = λ host n. ground (arith, str_beq_iff x host);
              })
        | inr (record_type, present) ↦ elim (Bool-cases (contains groups x)) [
          | inl wanted ↦
              rw (present, sweep_host, wanted)
                (record {
                  store = SameHeld-refl s.ctlr.store;
                  known = known;
                  removed = λ host n. ground (arith, str_beq_iff x host);
                })
          | inr unwanted ↦
              let avail = remove_element s.avail_hosts x in
              let left = λ (h : String) (e : contains avail h ≡ true).
                known h (contains-remove_element s.avail_hosts x h e) in
              let step = drop_record-SameHeld s.ctlr avail ip netview cidr x record_type left in
              rw (present, sweep_host, unwanted)
                (record {
                  store = step;
                  known = λ h e. step.grows ip h (left h e);
                  removed = λ host n.
                      ground
                        (arith, str_beq_iff x host, occurrences-append s.to_remove (x ∷ []) host);
                })
        ]
      ]

  pub sweep_hosts-Swept :
      (groups : List String) (ip netview cidr : String) (s : Sweep) (visits : List String)
      → Known s ip
      → Swept groups ip visits s (sweep_hosts c ranges groups ip netview cidr s visits)
  unfolding sweep_hosts occurrences
  sweep_hosts-Swept groups ip netview cidr s [] known = record {
    store = SameHeld-refl s.ctlr.store;
    known = known;
    removed = λ host n. ground arith;
  }
  sweep_hosts-Swept groups ip netview cidr s (x ∷ visits) known =
      let t = sweep_host c ranges groups ip netview cidr s x in
      let one = sweep_host-Swept groups ip netview cidr s x known in
      let rest = sweep_hosts-Swept groups ip netview cidr t visits one.known in
      record {
        store = SameHeld-trans s.ctlr.store t.ctlr.store _ one.store rest.store;
        known = rest.known;
        removed = λ host n.
            ground (arith, one.removed host n, rest.removed host n, one.store.same ip host n);
      }
