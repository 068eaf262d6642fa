-- ===== src/Tracker/Service.antt =====
-- internal/tracker/service.go: the names of uploads, the account an upload belongs to, and the
-- references to executions.
pub mod Names
pub mod Handles
pub mod Intake
pub mod Decimal
pub mod References
mod Tests
use insta_follower_tracker.Prelude.{
  ℕ, ◌+◌, ◌*◌, Bool, true, false, not, ◌&&◌, ◌||◌, List, [], ◌∷◌, ◌++◌, map, Option, none, some,
  ltb, leb, ◌==◌, if◌then◌else◌, length,
}
use insta_follower_tracker.Prelude.Text.{Text, text_eq, codes}
use insta_follower_tracker.Strings.{to_lower, trim_space, take, base}
use insta_follower_tracker.Strings.Path.{clean, ext}
use insta_follower_tracker.Store.Models.{StoreError, not_found, Upload, Db, Result, ok, err}
use insta_follower_tracker.Store.Queue.{boundary_upload, completed_upload}
use insta_follower_tracker.Store.Accounts.{normalize_handle}
use insta_follower_tracker.Instagram.Readers.{Readers}
use insta_follower_tracker.Instagram.Archive.{ZipEntry, owner_from_archive}
use insta_follower_tracker.Instagram.FileName.{is_digit, value_of, filename_handle}

abbrev pub or_upload : Text → Text
or_upload name =
    if text_eq name [] || text_eq name (codes ".") || text_eq name (47 ∷ [])
    then codes "upload"
    else (if ltb 200 (length name) then take 200 name else name)

-- strings.ReplaceAll of the backslash.
unfoldable pub slashes : Text → Text
slashes = map (λ c. if c == 92 then 47 else c)

unfoldable pub sanitize_display_name : Text → Text
unfolding slashes base clean trim_space take text_eq
sanitize_display_name name = or_upload (trim_space (base (clean (47 ∷ slashes name))))

abbrev pub known_ext : Text → Text
known_ext e =
    if not (text_eq e (codes ".zip")) && not (text_eq e (codes ".json")) then codes ".bin" else e

-- `stamp` is the time of day in letters, `nonce` the random bytes in hexadecimal.
unfoldable pub upload_filename : Text → Text → Text → Text
unfolding sanitize_display_name ext to_lower
upload_filename stamp nonce original =
    stamp ++ 45 ∷ (nonce ++ known_ext (to_lower (ext (sanitize_display_name original))))

abbrev pub or_owner : Option Text → Option Text → Option Text
or_owner none other = other
or_owner (some h) other = some h

-- `stored` is the content of the stored file, where it can be opened.
module _ (readers : Readers) (open_zip : Text → Option (List ZipEntry)) where
  abbrev pub stored_owner : Option Text → Option Text
  stored_owner none = none
  stored_owner (some content) = owner_from_archive readers open_zip content

  unfoldable pub resolve_handle : Text → Text → Option Text → Option Text
  unfolding normalize_handle filename_handle owner_from_archive
  resolve_handle handle filename stored = elim (normalize_handle handle) [
    | [] ↦ or_owner (filename_handle filename) (stored_owner stored)
    | c ∷ s ↦ some (c ∷ s)
  ]

-- The digits of a number, at least one; none where a byte is no digit.
unfoldable pub digits_from : ℕ → Text → Option ℕ
digits_from n [] = some n
digits_from n (c ∷ s) =
    let rest = digits_from (n * 10 + value_of c) s in if is_digit c then rest else none

abbrev pub number_of : Text → Option ℕ
number_of [] = none
number_of (c ∷ s) = digits_from 0 (c ∷ s)

-- What strconv.ParseInt gives for base 10 and 64 bits, less a negative number, which is no id.
pub data Reference : Type 0 where
  id_of : ℕ → Reference
  below_zero invalid : Reference

abbrev pub within : ℕ → Option ℕ → Reference
within most none = invalid
within most (some n) = if leb n most then id_of n else invalid

abbrev pub negated : Option ℕ → Reference
negated none = invalid
negated (some n) =
    if n == 0 then id_of 0 else (if leb n 9223372036854775808 then below_zero else invalid)

unfoldable pub parse_id : Text → Reference
unfolding digits_from
parse_id [] = invalid
parse_id (c ∷ s) =
    if c == 45
    then negated (number_of s)
    else within 9223372036854775807 (if c == 43 then number_of s else number_of (c ∷ s))

pub data ResolveError : Type 0 where
  invalid_reference : ResolveError
  store_failed : StoreError → ResolveError

pub data Resolved : Type 0 where
  execution : Upload → Resolved
  unresolved : ResolveError → Resolved

abbrev pub of_store : Result Upload → Resolved
of_store (ok r) = execution r
of_store (err e) = unresolved (store_failed e)

abbrev pub is_first_word : Text → Bool
is_first_word w = text_eq w (codes "first") || text_eq w (codes "oldest")

abbrev pub is_last_word : Text → Bool
is_last_word w =
    text_eq w (codes "last") || text_eq w (codes "latest") || text_eq w (codes "newest")

abbrev pub of_reference : Db → ℕ → Reference → Resolved
of_reference db account invalid = unresolved invalid_reference
of_reference db account below_zero = unresolved (store_failed not_found)
of_reference db account (id_of n) = of_store (completed_upload db account n)

unfoldable pub resolve_upload : Db → ℕ → Text → Bool → Resolved
unfolding trim_space to_lower text_eq parse_id boundary_upload completed_upload
resolve_upload db account ref fallback_last =
    let w = to_lower (trim_space ref) in
    if text_eq w []
    then of_store (boundary_upload db account fallback_last)
    else (if is_first_word w
        then of_store (boundary_upload db account false)
        else (if is_last_word w
            then of_store (boundary_upload db account true)
            else of_reference db account (parse_id (trim_space ref))))
