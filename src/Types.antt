-- ===== src/Types.antt =====
-- The data that the packages share: types/types.go, the structs of blockchain/block.go and
-- blockchain/quorum.go, crypto/id.go, crypto/signature.go, identity/identity.go and message/message.go.
--
-- Views and sequence numbers are Go `int`s. Here they are natural numbers, and a sum with one of them
-- does not wrap: the model is that of the code as long as the current view `Fits`, which the theorems
-- about the order of views assume, and sequence numbers stay below the largest `int`. Negative ones do not
-- occur in messages here. A 32-byte identifier is
-- the number that its bytes spell; the zero array is 0. A node id is the bytes of its string. A pointer that may be nil is an `Option`.
use Prim.Native.Nat.{◌^◌}
use multipipelinehs.Prelude.{
  ◌+◌, ◌<◌, if◌then◌else◌, Bool, true, false, ℕ, Option, none, List, [], ℕ_discrete, ◌≡◌, refl, ap,
  subst, ◌∙◌, ◌⊎◌, inl, inr,
}

abbrev pub View : Type 0
View = ℕ

-- The view and the one after it are `int`s, so that neither the step to the view nor the view after it
-- wraps.
abbrev pub Fits : View → Type 0
Fits v = v + 1 < 2 ^ 63

abbrev pub Seq : Type 0
Seq = ℕ

abbrev pub Identifier : Type 0
Identifier = ℕ

abbrev pub NodeId : Type 0
NodeId = List ℕ

abbrev pub Signature : Type 0
Signature = List (List ℕ)

abbrev pub AggSig : Type 0
AggSig = List Signature

unfoldable pub node_id_discrete : Discrete NodeId
node_id_discrete = hlevel ℕ_discrete

-- `ProposeType`, the constants of `iota`.
pub data ProposeType : Type 0 where
  no_timeout timeout_f timeout_s : ProposeType

pub record NewViewType : Type 0 where
  pub view : View
  pub seq : Seq
  pub propose_type : ProposeType

-- `Ope` of `SignalV`.
pub data Operation : Type 0 where
  continue drop : Operation

pub record SignalV : Type 0 where
  pub ope : Operation
  pub view : View

pub record Payload : Type 0 where
  pub id : List ℕ
  pub digest : List ℕ
  pub timestamp : ℕ

pub record Vote : Type 0 where
  pub view : View
  pub seq : Seq
  pub voter : NodeId
  pub block_id : Identifier
  pub signature : Signature

pub record Qc : Type 0 where
  pub leader : NodeId
  pub view : View
  pub seq : Seq
  pub block_id : Identifier
  pub signers : List NodeId
  pub agg_sig : AggSig

pub record Tc : Type 0 where
  pub view : View
  pub seq : Seq

pub record Tmo : Type 0 where
  pub view : View
  pub f_seq : Seq
  pub s_seq : Seq
  pub node_id : NodeId
  pub high_qc : Option Qc

pub record Block : Type 0 where
  pub seq : Seq
  pub view : View
  pub qc : Option Qc
  pub tc : Option Tc
  pub tcs : List (Option Tc)
  pub proposer : NodeId
  pub payload : List Payload
  pub prev_id : Identifier
  pub sig : Signature
  pub id : Identifier

-- What Go does on a nil dereference or an index out of range, and what a loop does that the bound on
-- its rounds cuts off; a send on a full channel does not come back.
pub data Fault : Type 0 where
  panic diverged blocked : Fault

pub data Result {ℓ} (A : Type ℓ) : Type ℓ where
  ok : A → Result A
  fault : Fault → Result A

infixl 5 ◌>>=◌
abbrev pub ◌>>=◌ {ℓ κ} : {A : Type ℓ} {B : Type κ} → Result A → (A → Result B) → Result B
ok a >>= f = f a
fault e >>= f = fault e

-- A sequence of two calls succeeds through a value of the first.
pub >>=-eq-ok {ℓ κ} :
    {X : Type ℓ} {Y : Type κ} {y : Y} (k : X → Result Y) (first : Result X)
    → (first >>= k) ≡ ok y
    → (x : X) × (k x ≡ ok y) × (first ≡ ok x)
>>=-eq-ok k (ok x) run = (x, run, refl)
>>=-eq-ok k (fault e) run = absurd (cc)

pub Result-cases {ℓ} :
    {A : Type ℓ} (r : Result A) → ((a : A) × (r ≡ ok a)) ⊎ ((e : Fault) × (r ≡ fault e))
Result-cases (ok a) = inl (a, refl)
Result-cases (fault e) = inr (e, refl)

pub ok-injective {ℓ} : {A : Type ℓ} (d : A) {a b : A} → ok a ≡ ok b → a ≡ b
ok-injective {A} d e = ap (λ (r : Result A). elim r [ ok x ↦ x | fault _ ↦ d ]) e

-- A pointer that is dereferenced.
abbrev pub deref {ℓ} : {A : Type ℓ} → Option A → Result A
deref o = elim o [ Option.none ↦ fault panic | Option.some a ↦ ok a ]

-- The zero values and short literals that the code writes.
abbrev pub zero_qc : Qc
zero_qc = record { leader = []; view = 0; seq = 0; block_id = 0; signers = []; agg_sig = [] }

abbrev pub zero_block : Block
zero_block = record {
  seq = 0;
  view = 0;
  qc = none;
  tc = none;
  tcs = [];
  proposer = [];
  payload = [];
  prev_id = 0;
  sig = [];
  id = 0;
}

-- A property of the value that a call returns, if it returns.
abbrev pub Yields {ℓ κ} : {A : Type ℓ} → (A → Type κ) → Result A → Type κ
Yields P (ok a) = P a
Yields P (fault e) = Unit

pub Yields-bind {ℓ κ μ ν} :
    {A : Type ℓ} {B : Type κ} (P : A → Type μ) (Q : B → Type ν) (m : Result A) (f : A → Result B)
    → Yields P m
    → ((a : A) → P a → Yields Q (f a))
    → Yields Q (m >>= f)
Yields-bind P Q (ok a) f h k = k a h
Yields-bind P Q (fault e) f h k = tt

pub Yields-ok {ℓ κ} :
    {A : Type ℓ} (P : A → Type κ) (m : Result A) (a : A) → Yields P m → m ≡ ok a → P a
Yields-ok P (ok x) a h e = subst P (ok-injective x e) h
Yields-ok P (fault x) a h e = absurd (cc)

pub Yields-any {ℓ} : {A : Type ℓ} (m : Result A) → Yields (λ (_ : A). Unit {0}) m
Yields-any (ok a) = tt
Yields-any (fault e) = tt

pub if-Yields {ℓ κ} :
    {A : Type ℓ} (P : A → Type κ) (b : Bool) (m n : Result A)
    → Yields P m
    → Yields P n
    → Yields P (if b then m else n)
if-Yields P true m n hm hn = hm
if-Yields P false m n hm hn = hn

-- What a call returns is what it returns.
pub Yields-self {ℓ} : {A : Type ℓ} (m : Result A) → Yields (λ a. m ≡ ok a) m
Yields-self (ok a) = refl
Yields-self (fault e) = tt

pub Yields-mono {ℓ κ μ} :
    {A : Type ℓ} (P : A → Type κ) (Q : A → Type μ) (m : Result A)
    → ((a : A) → P a → Q a)
    → Yields P m
    → Yields Q m
Yields-mono P Q (ok a) f h = f a h
Yields-mono P Q (fault e) f h = tt

-- A sequence of two calls that succeed.
pub >>=-ok {ℓ κ} :
    {X : Type ℓ} {Y : Type κ} {x : X} {y : Y} (k : X → Result Y) (first : Result X)
    → first ≡ ok x
    → k x ≡ ok y
    → (first >>= k) ≡ ok y
>>=-ok k first e d = ap (λ m. m >>= k) e ∙ d

-- Two continuations that agree on what a call may give.
pub bind-eq {ℓ κ μ} :
    {A : Type ℓ} {B : Type κ} (P : A → Type μ) (m : Result A) (f g : A → Result B)
    → Yields P m
    → ((a : A) → P a → f a ≡ g a)
    → (m >>= f) ≡ (m >>= g)
bind-eq P (ok a) f g h k = k a h
bind-eq P (fault e) f g h k = refl

-- `if-Yields`, where both branches use the test.
pub if-Yields_cases {ℓ κ} :
    {A : Type ℓ} (P : A → Type κ) (b : Bool) (m n : Result A)
    → (b ≡ true → Yields P m)
    → (b ≡ false → Yields P n)
    → Yields P (if b then m else n)
if-Yields_cases P true m n hm hn = hm refl
if-Yields_cases P false m n hm hn = hn refl

pub if-eq {ℓ} :
    {A : Type ℓ} (b : Bool) (x y z : A) → y ≡ z → (if b then x else y) ≡ (if b then x else z)
if-eq true x y z h = refl
if-eq false x y z h = h

-- A call that returns.
abbrev pub Returns {ℓ} : {A : Type ℓ} → Result A → Type ℓ
Returns {A} m = (a : A) × (m ≡ ok a)

pub if-Returns {ℓ} :
    {A : Type ℓ} (b : Bool) (m n : Result A) → Returns m → Returns n → Returns (if b then m else n)
if-Returns true m n hm hn = hm
if-Returns false m n hm hn = hn

pub Returns-bind {ℓ κ} :
    {A : Type ℓ} {B : Type κ} (m : Result A) (f : A → Result B)
    → Returns m
    → ((a : A) → Returns (f a))
    → Returns (m >>= f)
Returns-bind m f (a, e) next = let (b, d) = next a in (b, >>=-ok f m e d)

-- What comes back did not fail a guard.
pub past_guard {ℓ} :
    {A : Type ℓ} (b : Bool) (f : Fault) (m : Result A) (a : A)
    → (if b then fault f else m) ≡ ok a
    → m ≡ ok a
past_guard true f m a e = absurd (cc)
past_guard false f m a e = e
