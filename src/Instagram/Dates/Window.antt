-- ===== src/Instagram/Dates/Window.antt =====
-- When an export declares itself partial.
use insta_follower_tracker.Prelude.{
  ℕ, ◌+◌, ◌*◌, ◌≤◌, ◌<◌, ◌≡◌, ◌↔◌, refl, sym, ap, ◌∙◌, inl, inr, true, Option, none, some, arith,
  Option-cases,
}
use insta_follower_tracker.Prelude.Text.{Text}
use insta_follower_tracker.Instagram.Readers.{Banner, Readers}
use insta_follower_tracker.Instagram.Dates.{
  Coverage, no_coverage, coverage_of_range, coverage_of_ends, text_from_html, parse_banner_time,
  coverage_from_metadata, narrow_window_days, day,
}

-- The page declares the range from `from` to `to`.
pub record IsDeclared (readers : Readers) (page : Text) (from to : ℕ) : Type 0 where
  pub banner : Banner
  pub found : readers.declared_range (text_from_html readers page) ≡ some banner
  pub start : parse_banner_time readers banner.from_date banner.from_clock ≡ some from
  pub end : parse_banner_time readers banner.to_date banner.to_clock ≡ some to

narrow_lem :
    (from to : ℕ)
    → ((coverage_of_range from to).partial ≡ true)
      ↔ ((from < to) × (to ≤ from + narrow_window_days * day))
narrow_lem from to = (λ h. ground arith, λ (h, k). ground arith)

silent_lem :
    (readers : Readers) (page : Text)
    → readers.declared_range (text_from_html readers page) ≡ none
    → coverage_from_metadata readers page ≡ no_coverage
unfolding coverage_from_metadata
silent_lem readers page e = rw (coverage_from_metadata, e) refl

found_lem :
    (readers : Readers) (page : Text) (m : Banner)
    → readers.declared_range (text_from_html readers page) ≡ some m
    → coverage_from_metadata readers page
      ≡ coverage_of_ends
          (parse_banner_time readers m.from_date m.from_clock)
          (parse_banner_time readers m.to_date m.to_clock)
unfolding coverage_from_metadata
found_lem readers page m e = rw (coverage_from_metadata, e) refl

ends_lem :
    (a b : Option ℕ)
    → (coverage_of_ends a b).partial ≡ true
    → (from : ℕ) × (to : ℕ) × (a ≡ some from)
      × (b ≡ some to)
      × (from < to)
      × (to ≤ from + narrow_window_days * day)
ends_lem none none h = cc h
ends_lem none (some t) h = cc h
ends_lem (some f) none h = cc h
ends_lem (some f) (some t) h = let (k, l) = (narrow_lem f t).0 h in (f, t, refl, refl, k, l)

-- An export is partial exactly if its summary page declares a range that goes forward in time and
-- is not wider than 400 days.
pub coverage_from_metadata-partial :
    (readers : Readers) (page : Text)
    → ((coverage_from_metadata readers page).partial ≡ true) ↔ (
        (from : ℕ) × (to : ℕ) × IsDeclared readers page from to
        × (from < to)
        × (to ≤ from + narrow_window_days * day))
coverage_from_metadata-partial readers page = (
  λ h. elim (Option-cases (readers.declared_range (text_from_html readers page))) [
    | inl silent ↦
        absurd (cc (h, ap (λ (c : Coverage). c.partial) (silent_lem readers page silent)))
    | inr (m, e) ↦
        let (from, to, f, t, k, l) =
          ends_lem (parse_banner_time readers m.from_date m.from_clock)
            (parse_banner_time readers m.to_date m.to_clock)
            (sym (ap (λ (c : Coverage). c.partial) (found_lem readers page m e)) ∙ h) in
        (from, to, record { banner = m; found = e; start = f; end = t }, k, l)
  ],
  λ (from, to, w, k, l).
      ap (λ (c : Coverage). c.partial) (found_lem readers page w.banner w.found)
      ∙ rw (w.start, w.end) ((narrow_lem from to).1 (k, l)),
)
