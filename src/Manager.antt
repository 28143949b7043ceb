-- ===== src/Manager.antt =====
-- pkg/manager/manager.go: the interface `Client` of an IPAM system, as the controller sees it. The
-- calls are data; a client is any rule that answers a call from the calls that were made before it,
-- newest first, so that what a theorem says of every client it says of every behaviour of the IPAM
-- system. A method without a result has no answer.
use f5_ipam_ctlr.Prelude.{Bool, List, String, contains, true, ◌≡◌, ◌⊎◌}
use f5_ipam_ctlr.Store.{Store}

pub data Call : Type 0 where
  create_a_record : String → String → String → Call
  delete_a_record : String → String → String → String → Call
  create_cname_record : String → String → String → Call
  delete_cname_record : String → String → String → String → Call
  cname_to_a : List String → String → String → String → String → Call
  get_next_addr : String → String → Call
  release_addr : String → String → String → Call
  get_records : Call

-- The answer of `CNAMEToA` is the new A record with its error, of which the controller logs only
-- whether there is one.
pub record Client : Type 0 where
  pub on_create_a_record : List Call → String → String → String → Bool
  pub on_cname_to_a : List Call → List String → String → String → String → String → String × Bool
  pub on_get_next_addr : List Call → String → String → String
  pub on_get_records : List Call → Store

-- What the controller relies on: `CNAMEToA` returns one of the available hosts, or the empty string
-- with an error.
pub record IsClient (c : Client) : Type 0 where
  pub new_a :
      (log : List Call) (avail : List String) (host ip netview cidr : String)
      → let (new_a, err) = c.on_cname_to_a log avail host ip netview cidr in
        (contains avail new_a ≡ true) ⊎ (new_a ≡ "")
