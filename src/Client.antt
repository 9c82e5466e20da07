-- ===== src/Client.antt =====
-- client.go: the choice of the nodes of a client, what it asks of them, and the comparison of their
-- histories. What a node answers comes over HTTP, and is an argument.
pub mod Consensus
use multipipelinehs.Prelude.{
  ℕ, zero, suc, ◌+◌, Bool, true, false, ◌&&◌, Option, none, some, List, [], ◌∷◌, ◌++◌, map, ltb,
  if◌then◌else◌, length, get_elem?, put, delete, get,
}
use multipipelinehs.Types.{NodeId, node_id_discrete}
use multipipelinehs.Identity.{new_node_id, node, itoa}
use multipipelinehs.Config.{Text, Addresses}

pub record HttpClient : Type 0 where
  pub addrs : Addresses
  pub http : Addresses
  pub n : ℕ
  pub cid : ℕ

-- The loop that takes the silent nodes out, the i-th to the last of them.
unfoldable pub remove_silent : ℕ → ℕ → Addresses → Addresses
remove_silent zero i m = m
remove_silent (suc left) i m =
    remove_silent left (i + 1) (delete node_id_discrete (new_node_id i) m)

-- `NewHTTPClient`; `is_silence` is the test of the strategy.
unfoldable pub new_http_client : Addresses → Addresses → ℕ → Bool → HttpClient
new_http_client addrs http byz_no is_silence = record {
  addrs = if is_silence then remove_silent byz_no 1 addrs else addrs;
  http = if is_silence then remove_silent byz_no 1 http else http;
  n = length addrs;
  cid = 0;
}

-- `Get`, which asks no node.
unfoldable pub client_get : HttpClient → HttpClient × Text
client_get c = (record c { cid = c.cid + 1 }, [])

-- The requests of `AllPut`: the nodes and their URLs. A key and a time are not
-- negative here, and the sum of a key and a node number fits the machine.
unfoldable pub put_requests : Addresses → ℕ → List (NodeId × Text)
put_requests [] key = []
put_requests ((id, ip) ∷ rest) key = (id, ip ++ b'/' ∷ itoa (key + node id)) ∷ put_requests rest key

-- What `AllPut` returns: each request that ends writes its error, or nil, over that of the one before.
unfoldable pub put_error : {E : Type 0} → Option E → List (Option E) → Option E
put_error err [] = err
put_error err (e ∷ rest) = put_error e rest

-- `Put`, with what the requests end with, in the order in which they do.
unfoldable pub client_put :
    {E : Type 0} → HttpClient → ℕ → List (Option E) → HttpClient × List (NodeId × Text) × Option E
unfolding put_requests put_error
client_put c key ends = (record c { cid = c.cid + 1 }, put_requests c.http key, put_error none ends)

-- The URL of a node; a missing one reads as the empty text.
unfoldable pub http_of : HttpClient → NodeId → Text
http_of c id = elim (get node_id_discrete id c.http) [ none ↦ [] | some ip ↦ ip ]

-- The URLs that `Crash` and `Drop` ask.
unfoldable pub crash_url : HttpClient → NodeId → ℕ → Text
unfolding http_of
crash_url c id t =
    http_of c id ++ (b'/' ∷ b'c' ∷ b'r' ∷ b'a' ∷ b's' ∷ b'h' ∷ b'?' ∷ b't' ∷ b'=' ∷ []) ++ itoa t

unfoldable pub drop_url : HttpClient → NodeId → NodeId → ℕ → Text
unfolding http_of
drop_url c from to t =
    http_of c from
    ++ (b'/' ∷ b'd' ∷ b'r' ∷ b'o' ∷ b'p' ∷ b'?' ∷ b'i' ∷ b'd' ∷ b'=' ∷ [])
    ++ to
    ++ (b'&' ∷ b't' ∷ b'=' ∷ [])
    ++ itoa t

-- The histories of the nodes: values in their order. A node that cannot be read has none.
abbrev pub Histories : Type 0
Histories = List (NodeId × List Text)

unfoldable pub longest : ℕ → Histories → ℕ
longest n [] = n
longest n (h ∷ hs) = longest (if ltb n (length h.1) then length h.1 else n) hs

-- `set` of the i-th values.
unfoldable pub values_at : ℕ → Histories → List (Text × Bool) → List (Text × Bool)
values_at i [] set = set
values_at i (h ∷ hs) set =
    values_at i hs
      (elim (get_elem? h.1 i) [ none ↦ set | some v ↦ put node_id_discrete v true set ])

-- The last loop of `Consensus`, from the i-th values on.
unfoldable pub agree_from : ℕ → ℕ → Histories → Bool
agree_from zero i hs = true
agree_from (suc left) i hs =
    let later = agree_from left (i + 1) hs in
    if ltb 1 (length (values_at i hs [])) then false else later

unfoldable pub consensus : Histories → Bool
consensus hs = agree_from (longest 0 hs) 0 hs
