-- ===== src/Controller/Shared.antt =====
-- The hosts of a group that shares an address, in the first loop of `processIPGroups`.
use f5_ipam_ctlr.Prelude.{
  Bool, Bool-cases, List, String, [], arith, contains, contains-append, false, inl, inr, refl,
  str_beq_iff, str_beq_refl, string_eq, sym, true, ◌==◌, ◌∙◌, ◌∷◌, ◌≡◌, ◌≢◌, ◌⊎◌,
}
use f5_ipam_ctlr.Controller.{
  Block, Controller, Pass, a, cname, host_loop, host_step, process_group, reserve, save_first,
  shared_loop, start,
}
use f5_ipam_ctlr.Controller.Effects.{store-release_unused}
use f5_ipam_ctlr.Manager.{Call, Client}
use f5_ipam_ctlr.Orchestration.IpGroup.{spec_hosts}
use f5_ipam_ctlr.Orchestration.Types.{GroupKey, Spec}
use f5_ipam_ctlr.Store.{Store, add_record, get_ip}
use f5_ipam_ctlr.Store.Address.{get_ip-add_record_new, get_ip-add_record_other, get_ip-holders}
use f5_ipam_ctlr.Store.Count.{holders, holders-add_record}

-- No record holds the host, or GetIP finds it at the address.
abbrev Ready : Store → String → String → Type 0
Ready st addr h = (holders st.records h ≡ 0) ⊎ (get_ip st h ≡ addr)

-- What a part of the loop keeps: for every host of the group it is ready, and a host that is at the
-- address stays there.
record Keeps (all : List String) (addr : String) (s t : Store) : Type 0 where
  ready : (h : String) → contains all h ≡ true → Ready t addr h
  stays : (h : String) → get_ip s h ≡ addr → get_ip t h ≡ addr

add_record-Keeps :
    (all : List String) (st : Store) (addr host record_type netview cidr : String)
    → addr ≢ ""
    → holders st.records host ≡ 0
    → ((h : String) → contains all h ≡ true → Ready st addr h)
    → Keeps all addr st (add_record st addr host record_type netview cidr)
unfolding get_ip
add_record-Keeps all st addr host record_type netview cidr named fresh ready =
    let st' = add_record st addr host record_type netview cidr in
    let others = get_ip-add_record_other st addr host record_type netview cidr in
    let there = get_ip-add_record_new st addr host record_type netview cidr fresh in
    record {
      ready = λ h m. elim (Bool-cases (host == h)) [
        | inl same ↦ inr (rw (← (str_beq_iff host h).0 same) there)
        | inr differ ↦ elim (ready h m) [
          | inl none_left ↦
              inl (ground (arith, holders-add_record st addr host record_type netview cidr h))
          | inr placed ↦ inr (others h differ ∙ placed)
        ]
      ];
      stays = λ h e. elim (Bool-cases (host == h)) [
        | inl same ↦ rw (← (str_beq_iff host h).0 same) there
        | inr differ ↦ others h differ ∙ e
      ];
    }

Keeps-refl :
    (all : List String) (addr : String) (st : Store)
    → ((h : String) → contains all h ≡ true → Ready st addr h)
    → Keeps all addr st st
Keeps-refl all addr st ready = record { ready = ready; stays = λ h e. e }

Keeps-trans :
    (all : List String) (addr : String) (s t u : Store)
    → Keeps all addr s t
    → Keeps all addr t u
    → Keeps all addr s u
Keeps-trans all addr s t u f g = record { ready = g.ready; stays = λ h e. g.stays h (f.stays h e) }

module _ (c : Client)
    (creates : (log : List Call) (name ip view : String)
      → c.on_create_a_record log name ip view ≡ true)
    (b : Block) (named : b.next_addr ≢ "") (all : List String) where
  abbrev AllReady : Pass → Type 0
  AllReady p =
      (p.cur_addr ≡ b.next_addr)
      × ((h : String) → contains all h ≡ true → Ready p.ctlr.store b.next_addr h)

  record Moves (hosts : List String) (p q : Pass) : Type 0 where
    cur : q.cur_addr ≡ b.next_addr
    keeps : Keeps all b.next_addr p.ctlr.store q.ctlr.store
    placed : (h : String) → contains hosts h ≡ true → get_ip q.ctlr.store h ≡ b.next_addr

  add_host-Moves :
      (p : Pass) (host record_type : String)
      → AllReady p
      → contains all host ≡ true
      → get_ip p.ctlr.store host ≡ ""
      → let st = add_record p.ctlr.store p.cur_addr host record_type b.netview b.cidr in
        Keeps all b.next_addr p.ctlr.store st × (get_ip st host ≡ b.next_addr)
  add_host-Moves p host record_type r m blank =
      let fresh : holders p.ctlr.store.records host ≡ 0 = elim (r.1 host m) [
        | inl none_left ↦ none_left
        | inr placed ↦ absurd (named (sym placed ∙ blank))
      ] in
      rw r.0 (
        add_record-Keeps all p.ctlr.store b.next_addr host record_type b.netview b.cidr named fresh
            r.1,
        get_ip-add_record_new p.ctlr.store b.next_addr host record_type b.netview b.cidr fresh,
      )

  one_placed :
      (st : Store) (host h : String)
      → get_ip st host ≡ b.next_addr
      → contains (host ∷ []) h ≡ true
      → get_ip st h ≡ b.next_addr
  unfolding contains
  one_placed st host h e m =
      let same : host == h ≡ true = ground arith in rw (← (str_beq_iff host h).0 same) e

  host_step-Moves :
      (is_first : Bool) (p : Pass) (host : String)
      → AllReady p
      → contains all host ≡ true
      → Moves (host ∷ []) p (host_step c is_first p b host)
  unfolding host_step get_ip
  host_step-Moves is_first p host r m =
      let first = save_first b.unique_ip is_first p.first_host host in
      elim (Bool-cases (get_ip p.ctlr.store host == "")) [
        | inr known ↦
            let placed : get_ip p.ctlr.store host ≡ b.next_addr = elim (r.1 host m) [
              | inl none_left ↦ absurd (
                  ground
                    (arith, get_ip-holders p.ctlr.store.records host none_left, str_beq_refl ""))
              | inr placed ↦ placed
            ] in
            rw known (record {
              cur = placed;
              keeps = Keeps-refl all b.next_addr p.ctlr.store r.1;
              placed = λ h e. one_placed p.ctlr.store host h placed e;
            })
        | inl no_addr ↦
            let blank = (str_beq_iff (get_ip p.ctlr.store host) "").0 no_addr in
            elim (Bool-cases (host == first)) [
              | inl lead ↦
                  let (keeps, placed) = add_host-Moves p host a r m blank in
                  rw (no_addr, lead, creates p.ctlr.log host b.next_addr b.netview)
                    (record {
                      cur = r.0;
                      keeps = keeps;
                      placed = λ h e.
                          one_placed (add_record p.ctlr.store p.cur_addr host a b.netview b.cidr)
                            host h placed e;
                    })
              | inr other ↦
                  let (keeps, placed) = add_host-Moves p host cname r m blank in
                  rw (no_addr, other)
                    (record {
                      cur = r.0;
                      keeps = keeps;
                      placed = λ h e.
                          one_placed
                            (add_record p.ctlr.store p.cur_addr host cname b.netview b.cidr) host h
                            placed e;
                    })
            ]
      ]

  host_loop-Moves :
      (is_first : Bool) (p : Pass) (hosts : List String)
      → AllReady p
      → ((h : String) → contains hosts h ≡ true → contains all h ≡ true)
      → Moves hosts p (host_loop c is_first p b hosts)
  unfolding host_loop contains
  host_loop-Moves is_first p [] r sub = record {
    cur = r.0;
    keeps = Keeps-refl all b.next_addr p.ctlr.store r.1;
    placed = λ h e. cc;
  }
  host_loop-Moves is_first p (host ∷ hosts) r sub =
      let q = host_step c is_first p b host in
      let here = host_step-Moves is_first p host r (sub host (ground (arith, str_beq_refl host))) in
      let later =
        host_loop-Moves false q hosts (here.cur, here.keeps.ready)
          (λ h e. sub h (ground (arith, e))) in
      record {
        cur = later.cur;
        keeps = Keeps-trans all b.next_addr p.ctlr.store q.ctlr.store _ here.keeps later.keeps;
        placed = λ h e. elim (Bool-cases (host == h)) [
          | inl same ↦ later.keeps.stays h (here.placed h (unfold contains in ground arith))
          | inr differ ↦ later.placed h (rw differ at e)
        ];
      }

  shared_loop-Moves :
      (p : Pass) (specs : List Spec)
      → AllReady p
      → ((h : String) → contains (spec_hosts specs) h ≡ true → contains all h ≡ true)
      → Moves (spec_hosts specs) p (shared_loop c p b specs)
  unfolding shared_loop spec_hosts contains
  shared_loop-Moves p [] r sub = record {
    cur = r.0;
    keeps = Keeps-refl all b.next_addr p.ctlr.store r.1;
    placed = λ h e. cc;
  }
  shared_loop-Moves p (spec ∷ specs) r sub =
      let q = host_loop c true p b spec.hosts in
      let split = contains-append spec.hosts (spec_hosts specs) in
      let here = host_loop-Moves true p spec.hosts r (λ h e. sub h (ground (arith, split h))) in
      let later =
        shared_loop-Moves q specs (here.cur, here.keeps.ready)
          (λ h e. sub h (ground (arith, split h))) in
      record {
        cur = later.cur;
        keeps = Keeps-trans all b.next_addr p.ctlr.store q.ctlr.store _ here.keeps later.keeps;
        placed = λ h e. elim (Bool-cases (contains spec.hosts h)) [
          | inl first ↦ later.keeps.stays h (here.placed h first)
          | inr rest ↦ later.placed h (ground (arith, split h))
        ];
      }

-- If the IPAM system takes every A record, the address that is reserved for a named group is not
-- empty, and no record holds a host of the group, then every host of the group gets that address.
pub process_group_shared :
    (c : Client) (ctlr : Controller) (group : GroupKey) (specs : List Spec)
    → ((log : List Call) (name ip view : String) → c.on_create_a_record log name ip view ≡ true)
    → group.name ≢ ""
    → c.on_get_next_addr ctlr.log group.netview group.cidr ≢ ""
    → ((h : String) → contains (spec_hosts specs) h ≡ true → holders ctlr.store.records h ≡ 0)
    → (host : String) → contains (spec_hosts specs) host ≡ true
    → get_ip (process_group c ctlr group specs).store host
      ≡ c.on_get_next_addr ctlr.log group.netview group.cidr
unfolding process_group reserve
process_group_shared c ctlr group specs creates has_name named fresh host m =
    let b = reserve c ctlr false group.netview group.cidr in
    let shared : group.name == "" ≡ false = ground (arith, str_beq_iff group.name "") in
    let moves =
      shared_loop-Moves c creates b named (spec_hosts specs) (start c ctlr b) specs
        (refl, λ h e. inl (fresh h e)) (λ h e. e) in
    rw (shared, store-release_unused c (shared_loop c (start c ctlr b) b specs) b)
      (moves.placed host m)
