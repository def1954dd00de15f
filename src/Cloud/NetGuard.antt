-- ===== src/Cloud/NetGuard.antt =====
-- packages/cloud/src/net-guard.ts: which addresses and webhook URLs are public. `isIP` of node:net,
-- the URL parser and the DNS lookup are parameters.
pub mod Addresses
pub mod Ranges
pub mod Mapped
pub mod Names
pub mod Accepted
mod Tests
pub use Addresses.{is_non_public_address}
use mathlib.Core.List.{reverse}
use Addresses.{strip_prefix}
use zettapay.Prelude.{
  ℕ, Bool, true, false, ◌||◌, not, Option, none, some, List, [], ◌∷◌, Text, codes, ◌===◌, ◌==◌,
  if◌then◌else◌, is_some, ◌&&◌,
}

-- Why a URL is refused.
pub data Reason : Type 0 where
  not_a_url not_https has_credentials not_default_port address_not_public : Reason
  hostname_not_public does_not_resolve resolves_to_non_public : Reason

-- What the code reads of a URL.
pub record Url : Type 0 where
  pub protocol : Text
  pub username : Text
  pub password : Text
  pub port : Text
  pub hostname : Text

pub data Verdict : Type 0 where
  unsafe : Reason → Verdict
  accepted : Url → Verdict

-- `text.replace(/^\[|\]$/g, '')`
abbrev strip_first : ℕ → Text → Text
strip_first c [] = []
strip_first c (x ∷ s) = if x == c then s else x ∷ s

abbrev pub strip_brackets : Text → Text
strip_brackets s = reverse (strip_first b']' (reverse (strip_first b'[' s)))

abbrev pub is_empty : {A : Type 0} → List A → Bool
is_empty [] = true
is_empty (_ ∷ _) = false

abbrev pub ends_with : Text → Text → Bool
ends_with s suffix = is_some (strip_prefix (reverse suffix) (reverse s))

-- The names that are refused without a lookup.
unfoldable pub is_local_name : Text → Bool
is_local_name host =
    host === codes "localhost"
    || ends_with host (codes ".localhost")
    || ends_with host (codes ".internal")
    || ends_with host (codes ".local")

module _ (is_ip : Text → ℕ) (parse_url : Text → Option Url) (dns : Text → Option (List Text)) where
  abbrev pub some_non_public : List Text → Bool
  some_non_public [] = false
  some_non_public (a ∷ more) = is_non_public_address is_ip a || some_non_public more

  -- The lookup; `none` is one that throws.
  abbrev pub check_lookup : Url → Option (List Text) → Verdict
  check_lookup url none = unsafe does_not_resolve
  check_lookup url (some addresses) =
      if is_empty addresses
      then unsafe does_not_resolve
      else if some_non_public addresses
      then unsafe resolves_to_non_public
      else accepted url

  abbrev pub check_host : Url → Text → Verdict
  check_host url host =
      if not (is_ip host == 0)
      then if is_non_public_address is_ip host then unsafe address_not_public else accepted url
      else if is_local_name host
      then unsafe hostname_not_public
      else check_lookup url (dns host)

  abbrev pub check_url : Option Url → Verdict
  check_url none = unsafe not_a_url
  check_url (some url) =
      if not (url.protocol === codes "https:")
      then unsafe not_https
      else if not (is_empty url.username) || not (is_empty url.password)
      then unsafe has_credentials
      else if not (is_empty url.port) && not (url.port === codes "443")
      then unsafe not_default_port
      else check_host url (strip_brackets url.hostname)

  unfoldable pub assert_public_https_url : Text → Verdict
  assert_public_https_url raw = check_url (parse_url raw)
