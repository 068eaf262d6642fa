-- ===== src/Instagram/FileName/Printed.antt =====
-- The name that Instagram gives to an archive is read back.
use insta_follower_tracker.Prelude.{
  ℕ, ◌+◌, ◌/◌, ◌%◌, ◌<◌, ◌≡◌, refl, ap, ◌∙◌, Bool, true, ◌||◌, ◌&&◌, leb, List, [], ◌∷◌, ◌++◌, some,
  arith, ◌==◌,
}
use insta_follower_tracker.Prelude.Table.{any, every, every-append, every_mono}
use insta_follower_tracker.Prelude.Text.{Text, text_eq, codes}
use insta_follower_tracker.Strings.{to_lower, trim_suffix_text, split, contains}
use insta_follower_tracker.Strings.Pieces.{IsFree, split-append, split_whole}
use insta_follower_tracker.Strings.Plain.{
  to_lower_plain, trim_space_plain, trim_prefix_plain, trim_suffix_plain, trim_suffix_text-append,
}
use insta_follower_tracker.Instagram.Followers.{normalize_username}
use insta_follower_tracker.Instagram.Page.{is_handle_byte, is_handle}
use insta_follower_tracker.Instagram.FileName.{
  Date, is_tag_byte, is_date, days_in_month, number_of_four, number_of_two, is_filled, match_pieces,
  archive_name, filename_date, filename_handle,
}

abbrev digit : ℕ → ℕ
digit n = 48 + n % 10

abbrev pub four_digits : ℕ → Text
four_digits n = digit (n / 1000) ∷ digit (n / 100) ∷ digit (n / 10) ∷ digit n ∷ []

abbrev pub two_digits : ℕ → Text
two_digits n = digit (n / 10) ∷ digit n ∷ []

number_of_four-digits : (n : ℕ) → n < 10000 → number_of_four (four_digits n) ≡ some n
number_of_four-digits n h = ground arith

number_of_two-digits : (n : ℕ) → n < 100 → number_of_two (two_digits n) ≡ some n
number_of_two-digits n h = ground arith

-- A letter of either case, or a digit.
abbrev pub is_alphanumeric : ℕ → Bool
is_alphanumeric c = leb 65 c && leb c 90 || leb 97 c && leb c 122 || leb 48 c && leb c 57

-- Every byte of an archive's name.
abbrev is_name_byte : ℕ → Bool
is_name_byte c = is_handle_byte c || is_alphanumeric c || c == 45

IsFree-every : (s : Text) → every is_handle_byte s ≡ true → IsFree 45 s
unfolding contains any every
IsFree-every [] h = refl
IsFree-every (c ∷ s) h = ground (arith, IsFree-every s)

abbrev stem : Text → Date → Text → Text
stem handle d tag =
    codes "instagram"
    ++ (45
        ∷ (handle
            ++ (45
                ∷ (four_digits d.year
                    ++ (45
                        ∷ (two_digits d.month
                            ++ (45 ∷ (two_digits d.day_of_month ++ (45 ∷ tag)))))))))

-- The name of the archive of an account, a day and a tag.
unfoldable pub archive_file : Text → Date → Text → Text
archive_file handle d tag = stem handle d tag ++ codes ".zip"

digits_plain :
    (n : ℕ)
    → (every is_handle_byte (four_digits n) ≡ true) × (every is_handle_byte (two_digits n) ≡ true)
unfolding every
digits_plain n = (ground arith, ground arith)

pieces_of_stem :
    (handle : Text) (d : Date) (tag : Text)
    → every is_handle_byte handle ≡ true
    → every is_handle_byte tag ≡ true
    → split 45 (stem handle d tag)
      ≡ codes "instagram"
        ∷ handle
        ∷ four_digits d.year
        ∷ two_digits d.month
        ∷ two_digits d.day_of_month
        ∷ tag
        ∷ []
pieces_of_stem handle d tag h t =
    let day = two_digits d.day_of_month in
    let month = two_digits d.month in
    let year = four_digits d.year in
    split-append 45 (codes "instagram") _ (IsFree-every (codes "instagram") (unfold every in refl))
    ∙ ap (λ (x : List Text). codes "instagram" ∷ x)
        (split-append 45 handle _ (IsFree-every handle h)
          ∙ ap (λ (x : List Text). handle ∷ x)
              (split-append 45 year _ (IsFree-every year (digits_plain d.year).0)
                ∙ ap (λ (x : List Text). year ∷ x)
                    (split-append 45 month _ (IsFree-every month (digits_plain d.month).1)
                      ∙ ap (λ (x : List Text). month ∷ x)
                          (split-append 45 day tag
                              (IsFree-every day (digits_plain d.day_of_month).1)
                            ∙ ap (λ (x : List Text). day ∷ x)
                                (split_whole 45 tag (IsFree-every tag t))))))

name_of_handle : (s : Text) → every is_handle_byte s ≡ true → every is_name_byte s ≡ true
name_of_handle s h = every_mono is_handle_byte is_name_byte s (λ c k. ground arith) h

dashed :
    (s rest : Text)
    → every is_handle_byte s ≡ true
    → every is_name_byte rest ≡ true
    → every is_name_byte (s ++ 45 ∷ rest) ≡ true
unfolding every
dashed s rest h k = ground (arith, every-append is_name_byte s (45 ∷ rest), name_of_handle s h)

name_bytes :
    (handle : Text) (d : Date) (tag : Text)
    → every is_handle_byte handle ≡ true
    → every is_alphanumeric tag ≡ true
    → every is_name_byte (archive_file handle d tag) ≡ true
unfolding archive_file
name_bytes handle d tag h t =
    every-append is_name_byte (stem handle d tag) (codes ".zip")
    ∙ rw
        (dashed (codes "instagram") _ (unfold every in refl) (
          dashed handle _ h (
            dashed (four_digits d.year) _ (digits_plain d.year).0 (
              dashed (two_digits d.month) _ (digits_plain d.month).1 (
                dashed (two_digits d.day_of_month) tag (digits_plain d.day_of_month).1
                  (every_mono is_alphanumeric is_name_byte tag (λ c k. ground arith) t))))))
        (unfold every in refl)

to_lower-append : (s t : Text) → to_lower (s ++ t) ≡ to_lower s ++ to_lower t
unfolding to_lower
to_lower-append [] t = refl
to_lower-append (c ∷ s) t = rw (to_lower-append s t) refl

-- What stands before the tag is in lower case.
lower_dashed :
    (s rest low : Text)
    → every is_handle_byte s ≡ true
    → to_lower rest ≡ low
    → to_lower (s ++ 45 ∷ rest) ≡ s ++ 45 ∷ low
unfolding to_lower
lower_dashed s rest low h e =
    to_lower-append s (45 ∷ rest)
    ∙ rw (to_lower_plain s (every_mono is_handle_byte _ s (λ c k. ground arith) h), e) refl

to_lower-archive_file :
    (handle : Text) (d : Date) (tag : Text)
    → every is_handle_byte handle ≡ true
    → to_lower (archive_file handle d tag) ≡ archive_file handle d (to_lower tag)
unfolding archive_file
to_lower-archive_file handle d tag h =
    to_lower-append (stem handle d tag) (codes ".zip")
    ∙ rw
        (lower_dashed (codes "instagram") _ _ (unfold every in refl) (
          lower_dashed handle _ _ h (
            lower_dashed (four_digits d.year) _ _ (digits_plain d.year).0 (
              lower_dashed (two_digits d.month) _ _ (digits_plain d.month).1 (
                lower_dashed (two_digits d.day_of_month) tag _ (digits_plain d.day_of_month).1
                  refl)))))
        (unfold to_lower in refl)

every-to_lower : (s : Text) → every is_alphanumeric s ≡ true → every is_tag_byte (to_lower s) ≡ true
unfolding every to_lower
every-to_lower [] h = refl
every-to_lower (c ∷ s) h = ground (arith, every-to_lower s)

is_filled-to_lower :
    (s : Text) → is_filled is_alphanumeric s ≡ true → is_filled is_tag_byte (to_lower s) ≡ true
unfolding to_lower
is_filled-to_lower [] h = cc h
is_filled-to_lower (c ∷ s) h = unfold to_lower in every-to_lower (c ∷ s) h

tag_is_handle : (c : ℕ) → is_tag_byte c ≡ true → is_handle_byte c ≡ true
tag_is_handle c h = ground arith

filled_every : (p : ℕ → Bool) (s : Text) → is_filled p s ≡ true → every p s ≡ true
filled_every p [] h = cc h
filled_every p (c ∷ s) h = h

pub normalize_username_plain : (s : Text) → every is_handle_byte s ≡ true → normalize_username s ≡ s
unfolding normalize_username
normalize_username_plain s h =
    rw (trim_space_plain s (every_mono is_handle_byte _ s (λ c k. ground arith) h)) (
      rw (to_lower_plain s (every_mono is_handle_byte _ s (λ c k. ground arith) h)) (
        rw (trim_prefix_plain 64 s (every_mono is_handle_byte _ s (λ c k. ground arith) h))
          (trim_suffix_plain 47 s (every_mono is_handle_byte _ s (λ c k. ground arith) h))))

pub handle_filled :
    (s : Text)
    → is_handle s ≡ true
    → (is_filled is_handle_byte s ≡ true) × (every is_handle_byte s ≡ true)
unfolding is_handle every
handle_filled [] h = absurd (ground arith)
handle_filled (c ∷ s) h = (ground arith, ground arith)

day_bound : (d : Date) → is_date d ≡ true → (d.month < 100) × (d.day_of_month < 100)
unfolding is_date days_in_month
day_bound d h = ground arith

match_pieces-printed :
    (handle : Text) (d : Date) (tag : Text)
    → is_filled is_handle_byte handle ≡ true
    → is_filled is_tag_byte tag ≡ true
    → d.year < 10000
    → d.month < 100
    → d.day_of_month < 100
    → match_pieces (
        codes "instagram"
        ∷ handle
        ∷ four_digits d.year
        ∷ two_digits d.month
        ∷ two_digits d.day_of_month
        ∷ tag
        ∷ [])
      ≡ some (record { handle = handle; date = d })
unfolding match_pieces text_eq
match_pieces-printed handle d tag h t y m k =
    rw
      (
        match_pieces,
        h,
        t,
        number_of_four-digits d.year y,
        number_of_two-digits d.month m,
        number_of_two-digits d.day_of_month k,
      )
      refl

lower_name-printed :
    (handle : Text) (d : Date) (tag : Text)
    → is_handle handle ≡ true
    → is_date d ≡ true
    → d.year < 10000
    → is_filled is_tag_byte tag ≡ true
    → match_pieces (split 45 (trim_suffix_text (codes ".zip") (archive_file handle d tag)))
      ≡ some (record { handle = handle; date = d })
unfolding archive_file
lower_name-printed handle d tag h v y t =
    let (filled, plain) = handle_filled handle h in
    let tagged =
      every_mono is_tag_byte is_handle_byte tag tag_is_handle (filled_every is_tag_byte tag t) in
    let (m, k) = day_bound d v in
    ap (λ (x : Text). match_pieces (split 45 x))
      (trim_suffix_text-append 46 (codes "zip") (stem handle d tag))
    ∙ ap match_pieces (pieces_of_stem handle d tag plain tagged)
    ∙ match_pieces-printed handle d tag filled t y m k

archive_name-printed :
    (handle : Text) (d : Date) (tag : Text)
    → is_handle handle ≡ true
    → is_date d ≡ true
    → d.year < 10000
    → is_filled is_alphanumeric tag ≡ true
    → archive_name (archive_file handle d tag) ≡ some (record { handle = handle; date = d })
unfolding archive_name
archive_name-printed handle d tag h v y t =
    let (filled, plain) = handle_filled handle h in
    let name = archive_file handle d tag in
    ap (λ (x : Text). match_pieces (split 45 (trim_suffix_text (codes ".zip") (to_lower x))))
      (trim_space_plain name (
        every_mono is_name_byte _ name (λ c e. ground arith)
          (name_bytes handle d tag plain (filled_every is_alphanumeric tag t))))
    ∙ ap (λ (x : Text). match_pieces (split 45 (trim_suffix_text (codes ".zip") x)))
        (to_lower-archive_file handle d tag plain)
    ∙ lower_name-printed handle d (to_lower tag) h v y (is_filled-to_lower tag t)

-- The name of an archive gives back the account and the day: for a handle of Instagram's characters
-- and length, a day of the calendar in a year of at most four digits, and a tag of letters of either
-- case and digits, one at least.
pub filename-archive_file :
    (handle : Text) (d : Date) (tag : Text)
    → is_handle handle ≡ true
    → is_date d ≡ true
    → d.year < 10000
    → is_filled is_alphanumeric tag ≡ true
    → (filename_handle (archive_file handle d tag) ≡ some handle)
      × (filename_date (archive_file handle d tag) ≡ some d)
unfolding filename_handle filename_date
filename-archive_file handle d tag h v y t =
    let e = archive_name-printed handle d tag h v y t in
    let (filled, plain) = handle_filled handle h in
    (
      rw (filename_handle, e) (rw (normalize_username_plain handle plain) (rw h refl)),
      rw (filename_date, e) (rw v refl),
    )
