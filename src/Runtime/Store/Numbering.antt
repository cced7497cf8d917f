-- ===== src/Runtime/Store/Numbering.antt =====
-- The numbering of the events in `#commitDraft`.
use lldm.Prelude.{
  ℕ, suc, ◌+◌, ◌≡◌, refl, arith, Bool, true, ◌&&◌, some, List, [], ◌∷◌, ◌++◌, length, ◌==◌,
}
use lldm.Contracts.Events.{GameEvent}
use lldm.Contracts.Transactions.{TransactionRecord}
use lldm.Runtime.Store.{events_follow, last_revision_of, is_revision}

-- The stream revisions are the numbers from the given one on.
unfoldable pub numbered : ℕ → List GameEvent → Bool
numbered n [] = true
numbered n (e ∷ es) = e.stream_revision == n && numbered (suc n) es

events_follow-numbered :
    (t : TransactionRecord) (revision index : ℕ) (es : List GameEvent)
    → events_follow t revision index es ≡ true
    → numbered (revision + index + 1) es ≡ true
unfolding events_follow numbered
events_follow-numbered t revision index [] h = refl
events_follow-numbered t revision index (e ∷ es) h =
    ground (arith, events_follow-numbered t revision (index + 1) es)

last_revision-numbered :
    (n : ℕ) (e : GameEvent) (es : List GameEvent)
    → numbered n (e ∷ es) ≡ true
    → last_revision_of (e ∷ es) ≡ some (n + length es)
unfolding numbered last_revision_of
last_revision-numbered n e [] h = ground arith
last_revision-numbered n e (f ∷ es) h = ground (arith, last_revision-numbered (suc n) f es)

pub numbered-append :
    (n : ℕ) (xs ys : List GameEvent)
    → numbered n xs ≡ true
    → numbered (n + length xs) ys ≡ true
    → numbered n (xs ++ ys) ≡ true
unfolding numbered
numbered-append n [] ys h k = ground arith
numbered-append n (x ∷ xs) ys h k = ground (arith, numbered-append (suc n) xs ys)

-- Events that pass the tests of a commit end at the revision that their number leads to.
pub follow-last_revision :
    (t : TransactionRecord) (revision last : ℕ) (es : List GameEvent)
    → events_follow t revision 0 es ≡ true
    → is_revision last (last_revision_of es) ≡ true
    → (numbered (revision + 1) es ≡ true) × (last ≡ revision + length es)
unfolding last_revision_of
follow-last_revision t revision last [] h l = ground arith
follow-last_revision t revision last (e ∷ es) h l = ground (
  arith,
  events_follow-numbered t revision 0 (e ∷ es) h,
  last_revision-numbered (revision + 1) e es,
  l,
)
