-- ===== src/Ledger/Readback.antt =====
-- `get_entries_for_transaction` on a ledger of pairs.
use mathlib.Core.List.{append-nil}
use ledgerlock.Ledger.Create.{get_entries_for_transaction, get_transaction}
use ledgerlock.Mongo.{Mongo}
use ledgerlock.Database.{Database, transaction_by_id, clash_transaction}
use ledgerlock.Models.{LedgerEntry, Transaction, ObjectId}
use ledgerlock.Base.{
  Bool-cases, any_weaken, some_eq, first-append_none, first-append, first_of_any, ◌⊎◌, sym, any,
  none_ne_some, Option, subst, ap, ◌∙◌, keep-append, if◌then◌else◌, Option-cases, ◌++◌, ◌==◌, ◌≡◌,
  Bool, List, keep, first, inr, inl, arith, refl, false, true, some, none, ◌∷◌, [],
}
use ledgerlock.Ledger.Pairs.{IsPair, Paired, nothing_written, pair}

-- The two entries of a header among all entries.
pub record Entries (t : Transaction) (l : List LedgerEntry) : Type 0 where
  pub debit_entry : LedgerEntry
  pub credit_entry : LedgerEntry
  pub entries : l ≡ debit_entry ∷ credit_entry ∷ []
  pub is_pair : IsPair t debit_entry credit_entry

has_transaction_id : ObjectId → Transaction → Bool
has_transaction_id k t = t.id == k

abbrev under : ObjectId → LedgerEntry → Bool
under k e = e.transaction_id == k

pair_under :
    (k : ObjectId) (es : List LedgerEntry) (t : Transaction) (d c : LedgerEntry) (b : Bool)
    → IsPair t d c
    → (t.id == k) ≡ b
    → keep (under k) (es ++ d ∷ c ∷ []) ≡ keep (under k) es ++ (if b then d ∷ c ∷ [] else [])
unfolding keep
pair_under k es t d c true q e =
    keep-append (under k) es (d ∷ c ∷ [])
    ∙ rw (ap (λ i. i == k) q.debit_header ∙ e, ap (λ i. i == k) q.credit_header ∙ e) refl
pair_under k es t d c false q e =
    keep-append (under k) es (d ∷ c ∷ [])
    ∙ rw (ap (λ i. i == k) q.debit_header ∙ e, ap (λ i. i == k) q.credit_header ∙ e) refl

-- The lookup of a header, after one more.
first_later :
    (k : ObjectId) (ts : List Transaction) (t : Transaction) (o : Option Transaction)
    → first (λ (u : Transaction). u.id == k) ts ≡ none
    → first (λ (u : Transaction). u.id == k) (ts ++ t ∷ []) ≡ o
    → ((t.id == k) ≡ true) × (o ≡ some t) ⊎ ((t.id == k) ≡ false) × (o ≡ none)
unfolding first
first_later k ts t o missing h =
    ground (arith, first-append_none (λ (u : Transaction). u.id == k) ts (t ∷ []))

fresh_id :
    (k : ObjectId) (ts : List Transaction) (t : Transaction)
    → any (clash_transaction t) ts ≡ false
    → (t.id == k) ≡ true
    → first (λ (u : Transaction). u.id == k) ts ≡ none
unfolding clash_transaction
fresh_id k ts t fresh e =
    first_of_any (λ (u : Transaction). u.id == k) ts
      (any_weaken (clash_transaction t) (λ u. u.id == k) (λ u n. ground arith) ts fresh)

not_under :
    {ts : List Transaction} {es : List LedgerEntry} (k : ObjectId)
    → Paired ts es
    → first (λ (t : Transaction). t.id == k) ts ≡ none
    → keep (under k) es ≡ []
unfolding first keep
not_under k nothing_written h = refl
not_under k (pair {ts = ts} {es = es} p t d c q fresh) h =
    elim (Option-cases (first (λ (u : Transaction). u.id == k) ts)) [
      | inl missing ↦ elim (first_later k ts t none missing h) [
        | inl (_, e) ↦ absurd (none_ne_some e)
        | inr (n, _) ↦ rw (pair_under k es t d c false q n, not_under k p missing) refl
      ]
      | inr (w, found) ↦ absurd (none_ne_some (sym h ∙ first-append _ ts (t ∷ []) found))
    ]

read_pair :
    {ts : List Transaction} {es : List LedgerEntry} (k : ObjectId) (t : Transaction)
    → Paired ts es
    → first (λ (u : Transaction). u.id == k) ts ≡ some t
    → Entries t (keep (under k) es)
unfolding first keep
read_pair k t nothing_written h = absurd (cc)
read_pair k u (pair {ts = ts} {es = es} p t d c q fresh) h =
    elim (Option-cases (first (λ (u : Transaction). u.id == k) ts)) [
      | inl missing ↦ elim (first_later k ts t (some u) missing h) [
        | inl (y, e) ↦
            rw (pair_under k es t d c true q y, not_under k p missing)
              (record {
                debit_entry = d;
                credit_entry = c;
                entries = refl;
                is_pair = subst (λ (x : Transaction). IsPair x d c) (sym (some_eq e)) q;
              })
        | inr (_, e) ↦ absurd (none_ne_some (sym e))
      ]
      | inr (w, found) ↦ elim (Bool-cases (t.id == k)) [
        | inl y ↦ absurd (none_ne_some (sym (fresh_id k ts t fresh y) ∙ found))
        | inr n ↦
            rw (pair_under k es t d c false q n, append-nil)
              (read_pair k u p (found ∙ sym (first-append _ ts (t ∷ []) found) ∙ h))
      ]
    ]

module _ ⦃m : Mongo⦄ where
  -- In a ledger of pairs, the entries read for a transaction that exists are exactly its debit and
  -- its credit.
  pub get_entries_for_transaction-Paired :
      (db : Database)
      → Paired db.transactions db.ledger_entries
      → (k : ObjectId) (t : Transaction) → get_transaction k db ≡ some t
      → Entries t (get_entries_for_transaction k db)
  unfolding get_transaction get_entries_for_transaction transaction_by_id
  get_entries_for_transaction-Paired db p k t h =
      let e = read_pair k t p (sym (m.find_one_first _ _) ∙ h) in
      record {
        debit_entry = e.debit_entry;
        credit_entry = e.credit_entry;
        entries = rw (m.find_keep, e.entries) refl;
        is_pair = e.is_pair;
      }
