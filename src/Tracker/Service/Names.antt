-- ===== src/Tracker/Service/Names.antt =====
-- The name that an upload is shown by.
use insta_follower_tracker.Prelude.{
  ℕ, zero, suc, ◌≤◌, ◌<◌, ◌≡◌, refl, sym, ap, subst, inl, inr, Bool, true, false, not, ◌||◌, [],
  ◌∷◌, arith, length, ltb, ◌==◌, Bool-cases,
}
use insta_follower_tracker.Prelude.Table.{every}
use insta_follower_tracker.Prelude.Text.{Text, text_eq, text_eq→eq, codes}
use insta_follower_tracker.Strings.{is_space, trim_space, take, base}
use insta_follower_tracker.Strings.Path.{clean}
use insta_follower_tracker.Strings.Every.{
  every-trim_of, every-take, every-clean, every-base, base-cases,
}
use insta_follower_tracker.Tracker.Service.{or_upload, slashes, sanitize_display_name}

abbrev pub is_separator : ℕ → Bool
is_separator c = c == 47 || c == 92

abbrev no_slash : ℕ → Bool
no_slash c = not (c == 47)

abbrev no_backslash : ℕ → Bool
no_backslash c = not (c == 92)

slashes-every : (s : Text) → every no_backslash (slashes s) ≡ true
unfolding slashes every
slashes-every [] = refl
slashes-every (c ∷ s) = ground (arith, slashes-every s)

rooted_slashes : (s : Text) → every no_backslash (47 ∷ slashes s) ≡ true
unfolding every
rooted_slashes s = slashes-every s

every-trim_space : (p : ℕ → Bool) (s : Text) → every p s ≡ true → every p (trim_space s) ≡ true
unfolding trim_space
every-trim_space p s h = every-trim_of p is_space s h

both :
    (s : Text)
    → every no_slash s ≡ true
    → every no_backslash s ≡ true
    → every (λ c. not (is_separator c)) s ≡ true
unfolding every
both [] h k = refl
both (c ∷ s) h k = ground (arith, both s)

-- A name that may stand as the last part of a path.
abbrev pub IsName : Text → Type 0
IsName s =
    (every (λ c. not (is_separator c)) s ≡ true)
    × (1 ≤ length s)
    × (length s ≤ 200)
    × (text_eq s (codes ".") ≡ false)

length-take_long : (n : ℕ) (s : Text) → n ≤ length s → length (take n s) ≡ n
unfolding take
length-take_long zero s h = refl
length-take_long (suc n) [] h = absurd (omega arith)
length-take_long (suc n) (c ∷ s) h = ap suc (length-take_long n s (omega arith))

differs : (s t : Text) → length t < length s → text_eq s t ≡ false
differs s t h = elim (Bool-cases (text_eq s t)) [
  | inl same ↦ absurd (omega (arith, ap length (text_eq→eq s t same)))
  | inr other ↦ other
]

filled : (s : Text) → text_eq s [] ≡ false → 1 ≤ length s
unfolding text_eq
filled [] h = cc h
filled (c ∷ s) h = omega arith

upload-IsName : IsName (codes "upload")
unfolding text_eq every
upload-IsName = (refl, omega arith, omega arith, refl)

plain_piece :
    (s : Text) → every no_slash s ≡ true → every no_backslash s ≡ true → IsName (or_upload s)
plain_piece s h k =
    elim (Bool-cases (text_eq s [] || text_eq s (codes ".") || text_eq s (47 ∷ []))) [
      | inl bad ↦ rw bad upload-IsName
      | inr fine ↦ elim (Bool-cases (ltb 200 (length s))) [
        | inl long ↦
            let full = length-take_long 200 s (ground arith) in
            rw (fine, long)
              (
                both (take 200 s) (every-take no_slash 200 s h) (every-take no_backslash 200 s k),
                omega (arith, full),
                omega (arith, full),
                differs (take 200 s) (codes ".") (omega (arith, full)),
              )
        | inr short ↦
            rw (fine, short) (both s h k, filled s (ground arith), ground arith, ground arith)
      ]
    ]

slash-IsName : IsName (or_upload (trim_space (47 ∷ [])))
unfolding trim_space text_eq
slash-IsName = upload-IsName

-- The recorded name has one to two hundred bytes, no slash and no backslash, and is not a dot.
pub sanitize_display_name-IsName : (name : Text) → IsName (sanitize_display_name name)
unfolding sanitize_display_name
sanitize_display_name-IsName name =
    let path = clean (47 ∷ slashes name) in
    elim (base-cases path) [
      | inl slash ↦ subst (λ b. IsName (or_upload (trim_space b))) (sym slash) slash-IsName
      | inr free ↦
          plain_piece (trim_space (base path)) (every-trim_space no_slash (base path) free) (
            every-trim_space no_backslash (base path) (
              every-base no_backslash path refl refl
                (every-clean no_backslash (47 ∷ slashes name) refl refl (rooted_slashes name))))
    ]
