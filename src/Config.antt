-- ===== src/Config.antt =====
-- config/config.go: the configuration of a replica. The JSON file is decoded by a library; what it
-- gives is the argument `decoded` of `load`. Numbers in it are not negative. The fields that nothing
-- modelled reads are left out.
pub mod Load
use multipipelinehs.Prelude.{
  ℕ, ◌+◌, Bool, not, ◌||◌, Option, none, some, List, [], ◌∷◌, ◌++◌, map, leb, ltb, length, put,
  if◌then◌else◌,
}
use Prim.Native.Nat.{◌^◌}
use multipipelinehs.Types.{NodeId, node_id_discrete, Result, ok, fault, panic, ◌>>=◌, deref}
use multipipelinehs.Identity.{itoa, new_node_id, node}

-- A text as its bytes.
abbrev pub Text : Type 0
Text = List ℕ

abbrev pub Addresses : Type 0
Addresses = List (NodeId × Text)

-- A map that the file does not give is nil.
pub record Config : Type 0 where
  pub addrs : Option Addresses
  pub mp_addrs : Option Addresses
  pub http_addrs : Option Addresses
  pub byz_no : ℕ
  pub b_size : ℕ
  pub payload_size : ℕ
  pub deliver_size : ℕ
  pub share_interval : ℕ
  pub master : NodeId
  pub mem_size : ℕ
  pub virtual_c : ℕ
  pub timeout : ℕ
  pub n : ℕ

unfoldable pub entries : Option Addresses → Addresses
entries none = []
entries (some m) = m

-- `IDs`, in the order of the map.
unfoldable pub ids : Config → List NodeId
unfolding entries
ids c = map (λ e. e.0) (entries c.addrs)

-- `GetTimer`, in milliseconds.
unfoldable pub get_timer : Config → ℕ
get_timer c = c.timeout

-- `c.ByzNo >= id.Node()` compares signed integers.
unfoldable pub is_byzantine : Config → NodeId → Bool
is_byzantine c id = leb (2 ^ 63) (node id) || leb (node id) c.byz_no

abbrev tcp : Text
tcp = b't' ∷ b'c' ∷ b'p' ∷ b':' ∷ b'/' ∷ b'/' ∷ []

abbrev http : Text
http = b'h' ∷ b't' ∷ b't' ∷ b'p' ∷ b':' ∷ b'/' ∷ b'/' ∷ []

-- The addresses of the i-th node: for the protocol, for the sharing of transactions, and for clients.
unfoldable pub node_address : ℕ → Text → Text
node_address i ip = tcp ++ ip ++ b':' ∷ itoa (3734 + i)

unfoldable pub share_address : ℕ → Text → Text
share_address i ip = tcp ++ ip ++ b':' ∷ itoa (4734 + i)

unfoldable pub http_address : ℕ → Text → Text
http_address i ip = http ++ ip ++ b':' ∷ itoa (8069 + i)

-- A write to a map, which panics if the map is nil.
unfoldable pub assign : NodeId → Text → Option Addresses → Result (Option Addresses)
assign id addr none = fault panic
assign id addr (some m) = ok (some (put node_id_discrete id addr m))

-- The loop over the lines of "ips.txt", of which there are none if the file cannot be opened.
unfoldable pub load_ips : ℕ → List Text → Config → Result Config
load_ips i [] c = ok c
load_ips i (ip ∷ ips) c = do
  mp_addrs ← assign (new_node_id i) (share_address i ip) c.mp_addrs
  addrs ← assign (new_node_id i) (node_address i ip) c.addrs
  http_addrs ← assign (new_node_id i) (http_address i ip) c.http_addrs
  load_ips (i + 1) ips (record c { mp_addrs = mp_addrs; addrs = addrs; http_addrs = http_addrs })

unfoldable pub load : Config → List Text → Result Config
unfolding entries
load decoded ips = do c ← load_ips 1 ips decoded; ok (record c { n = length (entries c.addrs) })
