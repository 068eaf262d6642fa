-- ===== src/Tracker/Service/References.antt =====
-- What a reference to an execution resolves to.
use insta_follower_tracker.Prelude.{
  ℕ, ◌≤◌, ◌≡◌, refl, sym, ap, inl, inr, ◌⊎◌, Bool, true, false, ◌&&◌, [], Option, none, some, arith,
  leb, ◌==◌, if◌then◌else◌, Option-cases,
}
use insta_follower_tracker.Prelude.Table.{find, select}
use insta_follower_tracker.Prelude.In.{In, In-find}
use insta_follower_tracker.Prelude.Text.{Text, text_eq}
use insta_follower_tracker.Strings.{to_lower, trim_space}
use insta_follower_tracker.Store.Models.{is_completed, Upload, Db, Result, ok, err}
use insta_follower_tracker.Store.Snapshot.{date_key}
use insta_follower_tracker.Store.Queue.{
  first_by, number_le, number_ge, boundary_upload, completed_upload,
}
use insta_follower_tracker.Store.Queue.Claims.{first_by-some}
use insta_follower_tracker.Store.Queue.Order.{first_by-least}
use insta_follower_tracker.Tracker.Service.Decimal.{IsSpelled, parse_id-IsSpelled}
use insta_follower_tracker.Tracker.Service.{
  Reference, id_of, below_zero, invalid, parse_id, Resolved, execution, of_store, is_first_word,
  is_last_word, of_reference, resolve_upload,
}

abbrev pub IsExecution : Db → ℕ → Upload → Type 0
IsExecution db account r =
    In r db.uploads × (r.account_id ≡ account) × (is_completed r.status ≡ true)

abbrev pub IsExtreme : (Upload → Upload → Bool) → Db → ℕ → Upload → Type 0
IsExtreme le db account r = (a : Upload) → IsExecution db account a → le r a ≡ true

-- An execution without a number stands before all others.
abbrev pub IsUpTo : Option ℕ → Option ℕ → Type 0
IsUpTo none n = Unit {0}
IsUpTo (some m) none = ⊥
IsUpTo (some m) (some n) = m ≤ n

-- No execution of the account has a greater number than `r`, or none has a lesser one.
abbrev pub IsEnd : Bool → Db → ℕ → Upload → Type 0
IsEnd true db account r =
    (a : Upload) → IsExecution db account a → IsUpTo a.sequence_no r.sequence_no
IsEnd false db account r =
    (a : Upload) → IsExecution db account a → IsUpTo r.sequence_no a.sequence_no

date_key-IsUpTo : (m n : Option ℕ) → leb (date_key m) (date_key n) ≡ true → IsUpTo m n
date_key-IsUpTo none n h = tt
date_key-IsUpTo (some m) none h = absurd (ground arith)
date_key-IsUpTo (some m) (some n) h = ground arith

number_le_total : (a b : Upload) → number_le a b ≡ false → number_le b a ≡ true
unfolding number_le
number_le_total a b h = ground arith

number_le_trans :
    (a b c : Upload) → number_le a b ≡ true → number_le b c ≡ true → number_le a c ≡ true
unfolding number_le
number_le_trans a b c h k = ground arith

abbrev of_account : ℕ → Upload → Bool
of_account account r = r.account_id == account && is_completed r.status

number_le-IsUpTo : (a b : Upload) → number_le a b ≡ true → IsUpTo a.sequence_no b.sequence_no
unfolding number_le
number_le-IsUpTo a b h = date_key-IsUpTo a.sequence_no b.sequence_no h

end_lem :
    (le : Upload → Upload → Bool) (total : (a b : Upload) → le a b ≡ false → le b a ≡ true)
    (trans : (a b c : Upload) → le a b ≡ true → le b c ≡ true → le a c ≡ true) (db : Db)
    (account : ℕ) (r : Upload)
    → first_by le (select (of_account account) db.uploads) ≡ some r
    → IsExecution db account r × IsExtreme le db account r
end_lem le total trans db account r e =
    let (m, w) = first_by-some le (of_account account) db.uploads r e in
    (
      (m, ground arith, ground arith),
      λ a (n, k, l).
          first_by-least le total trans (of_account account) db.uploads r a e n (ground arith),
    )

boundary_upload-IsEnd :
    (db : Db) (account : ℕ) (last : Bool) (r : Upload)
    → boundary_upload db account last ≡ ok r
    → IsExecution db account r × IsEnd last db account r
unfolding boundary_upload
boundary_upload-IsEnd db account true r h =
    elim (Option-cases (first_by number_ge (select (of_account account) db.uploads))) [
      | inl none_left ↦ absurd (ground arith)
      | inr (a, e) ↦
          let (w, top) =
            end_lem number_ge (λ x y k. number_le_total y x k)
              (λ x y z k l. number_le_trans z y x l k) db account r (ground arith) in
          (w, λ b k. number_le-IsUpTo b r (top b k))
    ]
boundary_upload-IsEnd db account false r h =
    elim (Option-cases (first_by number_le (select (of_account account) db.uploads))) [
      | inl none_left ↦ absurd (ground arith)
      | inr (a, e) ↦
          let (w, least) =
            end_lem number_le number_le_total number_le_trans db account r (ground arith) in
          (w, λ b k. number_le-IsUpTo r b (least b k))
    ]

completed_upload-row :
    (db : Db) (account id : ℕ) (r : Upload)
    → completed_upload db account id ≡ ok r
    → IsExecution db account r × (r.id ≡ id)
unfolding completed_upload
completed_upload-row db account id r h =
    let p = λ (x : Upload). x.id == id && x.account_id == account && is_completed x.status in
    elim (Option-cases (find p db.uploads)) [
      | inl nothing ↦ absurd (ground arith)
      | inr (a, e) ↦
          let (m, k) = In-find p r db.uploads (ground arith) in
          ((m, ground arith, ground arith), ground arith)
    ]

-- What the reference asks for: an end of the numbers by a word or by none, or an id.
abbrev pub IsMeant : Db → ℕ → Text → Bool → Upload → Type 0
IsMeant db account ref fallback_last r =
    let w = to_lower (trim_space ref) in
    ((text_eq w [] ≡ true) × IsEnd fallback_last db account r)
    ⊎ ((is_first_word w ≡ true) × IsEnd false db account r)
    ⊎ ((is_last_word w ≡ true) × IsEnd true db account r)
    ⊎ IsSpelled (trim_space ref) r.id

of_store-ok : (o : Result Upload) (r : Upload) → of_store o ≡ execution r → o ≡ ok r
of_store-ok (ok a) r h = cc h
of_store-ok (err e) r h = cc h

of_boundary-IsEnd :
    (db : Db) (account : ℕ) (last : Bool) (r : Upload)
    → of_store (boundary_upload db account last) ≡ execution r
    → IsExecution db account r × IsEnd last db account r
of_boundary-IsEnd db account last r h =
    boundary_upload-IsEnd db account last r (of_store-ok (boundary_upload db account last) r h)

of_reference-row :
    (db : Db) (account : ℕ) (n : Reference) (r : Upload)
    → of_reference db account n ≡ execution r
    → IsExecution db account r × (n ≡ id_of r.id)
of_reference-row db account invalid r h = cc h
of_reference-row db account below_zero r h = cc h
of_reference-row db account (id_of n) r h =
    let (w, e) = completed_upload-row db account n r (of_store-ok _ r h) in (w, ap id_of (sym e))

branches :
    (a b c : Bool) (w x y z t : Resolved)
    → (if a then w else (if b then x else (if c then y else z))) ≡ t
    → ((a ≡ true) × (w ≡ t)) ⊎ ((b ≡ true) × (x ≡ t)) ⊎ ((c ≡ true) × (y ≡ t)) ⊎ (z ≡ t)
branches true b c w x y z t h = inl (refl, h)
branches false true c w x y z t h = inr (inl (refl, h))
branches false false true w x y z t h = inr (inr (inl (refl, h)))
branches false false false w x y z t h = inr (inr (inr h))

-- A reference that resolves gives an execution of the account. It is one that no other exceeds in
-- number, or none precedes, where a word asks for the last or the first; of these two the one asked
-- for as a fallback where the reference is blank; and otherwise the one with the id that the trimmed
-- reference spells in decimal digits, a sign before them allowed.
pub resolve_upload-IsMeant :
    (db : Db) (account : ℕ) (ref : Text) (fallback_last : Bool) (r : Upload)
    → resolve_upload db account ref fallback_last ≡ execution r
    → IsExecution db account r × IsMeant db account ref fallback_last r
unfolding resolve_upload
resolve_upload-IsMeant db account ref fallback_last r h =
    let w = to_lower (trim_space ref) in
    elim (branches (text_eq w []) (is_first_word w) (is_last_word w)
      (of_store (boundary_upload db account fallback_last))
      (of_store (boundary_upload db account false)) (of_store (boundary_upload db account true))
      (of_reference db account (parse_id (trim_space ref))) (execution r) h) [
        | inl (blank, e) ↦
            let (a, b) = of_boundary-IsEnd db account fallback_last r e in (a, inl (blank, b))
        | inr (inl (first, e)) ↦
            let (a, b) = of_boundary-IsEnd db account false r e in (a, inr (inl (first, b)))
        | inr (inr (inl (last, e))) ↦
            let (a, b) = of_boundary-IsEnd db account true r e in (a, inr (inr (inl (last, b))))
        | inr (inr (inr e)) ↦
            let (a, b) = of_reference-row db account (parse_id (trim_space ref)) r e in
            (a, inr (inr (inr (parse_id-IsSpelled (trim_space ref) r.id b))))
      ]
