-- ===== src/Config/Load.antt =====
-- What `Load` of config/config.go makes of the list of addresses.
use multipipelinehs.Prelude.{
  ℕ, zero, suc, ◌+◌, ◌<◌, ◌≡◌, ◌≢◌, refl, ap, sym, ◌∙◌, some, List, [], ◌∷◌, arith, length,
  get_elem?, get, put, get-put_self, get-put_ne,
}
use Prim.Native.Nat.{◌^◌}
use multipipelinehs.Types.{node_id_discrete, ok, >>=-ok}
use multipipelinehs.Identity.{new_node_id, node}
use multipipelinehs.Identity.RoundTrip.{node-new_node_id}
use multipipelinehs.Config.{
  Text, Addresses, Config, entries, assign, node_address, share_address, http_address, load_ips,
  load,
}

-- The addresses of the nodes from the i-th on, written to a map.
abbrev put_all : (ℕ → Text → Text) → ℕ → List Text → Addresses → Addresses
put_all address i [] m = m
put_all address i (ip ∷ ips) m =
    put_all address (i + 1) ips (put node_id_discrete (new_node_id i) (address i ip) m)

load_ips-put_all :
    (i : ℕ) (ips : List Text) (c : Config) (m a h : Addresses)
    → c.mp_addrs ≡ some m
    → c.addrs ≡ some a
    → c.http_addrs ≡ some h
    → load_ips i ips c
      ≡ ok (record c {
        mp_addrs = some (put_all share_address i ips m);
        addrs = some (put_all node_address i ips a);
        http_addrs = some (put_all http_address i ips h);
      })
unfolding load_ips assign
load_ips-put_all i [] c m a h em ea eh = ground arith
load_ips-put_all i (ip ∷ ips) c m a h em ea eh =
    rw (em, ea, eh) (load_ips-put_all (i + 1) ips _ _ _ _ refl refl refl)

new_node_id-ne : (i j : ℕ) → i < 2 ^ 63 → j < 2 ^ 63 → i ≢ j → new_node_id i ≢ new_node_id j
new_node_id-ne i j hi hj other e =
    other (sym (node-new_node_id i hi) ∙ ap node e ∙ node-new_node_id j hj)

put_all-earlier :
    (address : ℕ → Text → Text) (i j : ℕ) (ips : List Text) (m : Addresses)
    → j < i
    → i + length ips < 2 ^ 63
    → get node_id_discrete (new_node_id j) (put_all address i ips m)
      ≡ get node_id_discrete (new_node_id j) m
put_all-earlier address i j [] m h small = refl
put_all-earlier address i j (ip ∷ ips) m h small =
    put_all-earlier address (i + 1) j ips _ (omega arith) (omega arith)
    ∙ get-put_ne node_id_discrete (new_node_id i) (new_node_id j) (address i ip) m
        (new_node_id-ne i j (omega arith) (omega arith) (omega arith))

put_all-get :
    (address : ℕ → Text → Text) (i j k : ℕ) (ips : List Text) (ip : Text) (m : Addresses)
    → j ≡ i + k
    → i + length ips < 2 ^ 63
    → get_elem? ips k ≡ some ip
    → get node_id_discrete (new_node_id j) (put_all address i ips m) ≡ some (address j ip)
put_all-get address i j k [] ip m here small e = absurd (cc)
put_all-get address i j zero (x ∷ ips) ip m here small e =
    let same : j ≡ i = omega arith in
    let found : x ≡ ip = ground arith in
    rw (same, ← found)
      (put_all-earlier address (i + 1) i ips _ (omega arith) (omega arith)
        ∙ get-put_self node_id_discrete (new_node_id i) (address i x) m)
put_all-get address i j (suc k) (x ∷ ips) ip m here small e =
    put_all-get address (i + 1) j k ips ip _ (omega arith) (omega arith) e

-- The three addresses of a node, from its line.
pub record Located (c : Config) (j : ℕ) (ip : Text) : Type 0 where
  pub protocol : get node_id_discrete (new_node_id j) (entries c.addrs) ≡ some (node_address j ip)
  pub share : get node_id_discrete (new_node_id j) (entries c.mp_addrs) ≡ some (share_address j ip)
  pub client :
      get node_id_discrete (new_node_id j) (entries c.http_addrs) ≡ some (http_address j ip)

-- If the decoded file gives the three maps of addresses, and the list of IP addresses has fewer
-- than 2 ^ 63 - 1 lines, then Load returns, N is the number of addresses, and for each line of the
-- list the node with the number of the line (the first is 1) has the three addresses that are made
-- of it.
pub load-Located :
    (c : Config) (ips : List Text) (m a h : Addresses) (k : ℕ) (ip : Text)
    → c.mp_addrs ≡ some m
    → c.addrs ≡ some a
    → c.http_addrs ≡ some h
    → length ips + 1 < 2 ^ 63
    → get_elem? ips k ≡ some ip
    → (d : Config) × (load c ips ≡ ok d) × (d.n ≡ length (entries d.addrs)) × Located d (k + 1) ip
unfolding load entries
load-Located c ips m a h k ip em ea eh small e = (
  _,
  >>=-ok _ (load_ips 1 ips c) (load_ips-put_all 1 ips c m a h em ea eh) refl,
  refl,
  record {
    protocol = put_all-get node_address 1 (k + 1) k ips ip a (omega arith) (omega arith) e;
    share = put_all-get share_address 1 (k + 1) k ips ip m (omega arith) (omega arith) e;
    client = put_all-get http_address 1 (k + 1) k ips ip h (omega arith) (omega arith) e;
  },
)
