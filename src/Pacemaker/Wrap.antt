-- ===== src/Pacemaker/Wrap.antt =====
-- `AdvanceView` of pacemaker/pacemaker.go on `int`s of 64 bits, which wrap. A number is its bits, so that
-- one from 2 ^ 63 on stands for a negative one.
use multipipelinehs.Prelude.{
  ℕ, ◌+◌, ◌-◌, ◌%◌, ◌<◌, ◌≡◌, Bool, List, [], ◌∷◌, arith, ltb, if◌then◌else◌,
}
use Prim.Native.Nat.{◌^◌}
use multipipelinehs.Types.{View, Seq, ProposeType}
use multipipelinehs.Pacemaker.{Pacemaker}
use multipipelinehs.Pacemaker.Views.{Advance}

-- `<` of two `int`s.
unfoldable pub lt_signed : ℕ → ℕ → Bool
lt_signed a b = ltb ((a + 2 ^ 63) % 2 ^ 64) ((b + 2 ^ 63) % 2 ^ 64)

unfoldable pub advance_int : Pacemaker → View → Seq → ProposeType → Pacemaker
unfolding lt_signed
advance_int p view seq pt = if lt_signed view p.cur_view then p else record p {
  cur_view = (view + 1) % 2 ^ 64;
  cur_seq = (seq + 2) % 2 ^ 64;
  entered =
      record { view = (view + 1) % 2 ^ 64; seq = (seq + 2) % 2 ^ 64; propose_type = pt }
      ∷ p.entered;
}

unfoldable pub run_ints : Pacemaker → List Advance → Pacemaker
run_ints p [] = p
run_ints p (a ∷ rest) = run_ints (advance_int p a.view a.seq a.propose_type) rest

-- The arguments are not negative, and the sequence number after that of the call is an `int`.
abbrev pub AreInts : Advance → Type 0
AreInts a = (a.view < 2 ^ 63) × (a.seq + 2 < 2 ^ 63)

-- From any view that is not negative, AdvanceView with the largest int makes the current view the
-- least int, and a call with any view but -1 after that is taken, whatever views were passed
-- before: the current view is then the one after it.
pub advance_int-wraps :
    (p : Pacemaker) (view : View) (seq later : Seq) (pt next : ProposeType)
    → p.cur_view < 2 ^ 63
    → view + 1 < 2 ^ 64
    → ((advance_int p (2 ^ 63 - 1) seq pt).cur_view ≡ 2 ^ 63)
      × ((advance_int (advance_int p (2 ^ 63 - 1) seq pt) view later next).cur_view ≡ view + 1)
unfolding advance_int lt_signed
advance_int-wraps p view seq later pt next small in_range = ground arith
