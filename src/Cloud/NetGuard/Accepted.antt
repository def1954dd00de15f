-- ===== src/Cloud/NetGuard/Accepted.antt =====
-- packages/cloud/src/net-guard.ts: what `assertPublicHttpsUrl` lets through.
use zettapay.Prelude.{
  ℕ, ◌≡◌, ◌≢◌, ◌⊎◌, ◌↔◌, inl, inr, refl, sym, subst, ap, ==_iff, Bool, true, false, not, ◌&&◌, ◌||◌,
  Option, none, some, List, [], ◌∷◌, Text, codes, ◌===◌, ◌==◌, if◌then◌else◌, text_eq_iff, arith,
  All, Bool-cases,
}
use zettapay.Cloud.NetGuard.Names.{IsLocalName, is_local_name-IsLocalName}
use zettapay.Cloud.NetGuard.{
  Reason, Url, Verdict, accepted, unsafe, is_empty, is_local_name, strip_brackets, some_non_public,
  check_lookup, check_host, check_url, assert_public_https_url, is_non_public_address,
}

-- A test that refuses.
module _ {next : Verdict} {url : Url} where
  passed :
      (r : Reason) (b : Bool)
      → (if b then unsafe r else next) ≡ accepted url
      → (b ≡ false) × (next ≡ accepted url)
  passed r true e = cc
  passed r false e = (refl, e)

  passes :
      (r : Reason) {b : Bool}
      → b ≡ false
      → next ≡ accepted url
      → (if b then unsafe r else next) ≡ accepted url
  passes r h e = rw h e

accepted-injective : {a b : Url} → accepted a ≡ accepted b → a ≡ b
accepted-injective e = cc

some-injective : {A : Type 0} {a b : A} → some a ≡ some b → a ≡ b
some-injective e = cc

equal_iff : (s t : Text) → (not (s === t) ≡ false) ↔ (s ≡ t)
equal_iff s t = ground (arith, text_eq_iff s t)

empties_iff :
    (s t : Text) → ((not (is_empty s) || not (is_empty t)) ≡ false) ↔ ((s ≡ []) × (t ≡ []))
empties_iff [] [] = ground arith
empties_iff [] (c ∷ t) = ground arith
empties_iff (c ∷ s) t = ground arith

port_iff :
    (p : Text)
    → ((not (is_empty p) && not (p === codes "443")) ≡ false) ↔ ((p ≡ []) ⊎ (p ≡ codes "443"))
port_iff [] = ground arith
port_iff (c ∷ p) = ground (arith, text_eq_iff (c ∷ p) (codes "443"))

module _ (is_ip : Text → ℕ) (parse_url : Text → Option Url) (dns : Text → Option (List Text)) where
  abbrev IsLetThrough : Text → Type 0
  IsLetThrough address = is_non_public_address is_ip address ≡ false

  -- A literal address that the test lets through, or a name that is not local and resolves, to such
  -- addresses only.
  abbrev pub HasSafeHost : Text → Type 0
  HasSafeHost host =
      ((is_ip host ≢ 0) × IsLetThrough host)
      ⊎ ((is_ip host ≡ 0)
          × (¬ (IsLocalName host))
          × ((addresses : List Text) × (dns host ≡ some addresses)
              × (addresses ≢ [])
              × All IsLetThrough addresses))

  abbrev pub IsSafeHttps : Url → Type 0
  IsSafeHttps url =
      (url.protocol ≡ codes "https:")
      × (url.username ≡ [])
      × (url.password ≡ [])
      × ((url.port ≡ []) ⊎ (url.port ≡ codes "443"))
      × HasSafeHost (strip_brackets url.hostname)

  some_non_public-All :
      (addresses : List Text)
      → (some_non_public is_ip parse_url dns addresses ≡ false) ↔ All IsLetThrough addresses
  some_non_public-All [] = ((λ h. tt), (λ h. refl))
  some_non_public-All (a ∷ more) = ground (arith, some_non_public-All more)

  is_empty_iff : {A : Type 0} (xs : List A) → (is_empty xs ≡ true) ↔ (xs ≡ [])
  is_empty_iff [] = ground arith
  is_empty_iff (x ∷ xs) = ground arith

  check_lookup-accepted :
      (url found : Url) (answer : Option (List Text))
      → (check_lookup is_ip parse_url dns url answer ≡ accepted found) ↔ (
          (url ≡ found)
          × ((addresses : List Text) × (answer ≡ some addresses)
              × (addresses ≢ [])
              × All IsLetThrough addresses))
  check_lookup-accepted url found none = ((λ e. cc), (λ (_, (_, e, _, _)). cc))
  check_lookup-accepted url found (some []) = ((λ e. cc), (λ (_, (xs, e, ne, _)). absurd (ne (cc))))
  check_lookup-accepted url found (some (a ∷ more)) = (
    (λ e.
        let (public, same) = passed _ (some_non_public is_ip parse_url dns (a ∷ more)) e in
        (
          accepted-injective same,
          (a ∷ more, refl, (λ no. cc), (some_non_public-All (a ∷ more)).0 public),
        )),
    (λ (same, (xs, e, ne, public)).
        let listed : (a ∷ more) ≡ xs = some-injective e in
        passes _ ((some_non_public-All (a ∷ more)).1 (subst (All IsLetThrough) (sym listed) public))
          (ap accepted same)),
  )

  check_host-accepted :
      (url found : Url) (host : Text)
      → (check_host is_ip parse_url dns url host ≡ accepted found)
        ↔ ((url ≡ found) × HasSafeHost host)
  check_host-accepted url found host = elim (Bool-cases (is_ip host == 0)) [
    | inl name ↦
        let zero_kind : is_ip host ≡ 0 = (==_iff (is_ip host) 0).0 name in
        let looked = check_lookup-accepted url found (dns host) in
        rw name (
          (λ e.
              let (local, rest) = passed _ (is_local_name host) e in
              let (same, resolved) = looked.0 rest in
              (same, inr (zero_kind, (is_local_name-IsLocalName host).0 local, resolved))),
          (λ (same, public). elim public [
            | inl (ne, _) ↦ absurd (ne zero_kind)
            | inr (_, local, resolved) ↦
                passes _ ((is_local_name-IsLocalName host).1 local) (looked.1 (same, resolved))
          ]),
        )
    | inr literal ↦
        let kind : is_ip host ≢ 0 = λ z. cc (literal, (==_iff (is_ip host) 0).1 z) in
        rw literal (
          (λ e.
              let (public, same) = passed _ (is_non_public_address is_ip host) e in
              (accepted-injective same, inl (kind, public))),
          (λ (same, public). elim public [
            | inl (_, h) ↦ passes _ h (ap accepted same)
            | inr (z, _, _) ↦ absurd (kind z)
          ]),
        )
  ]

  -- The tests on the URL itself.
  check_url-accepted :
      (answer : Option Url) (url : Url)
      → (check_url is_ip parse_url dns answer ≡ accepted url)
        ↔ ((answer ≡ some url) × IsSafeHttps url)
  check_url-accepted none url = ((λ e. cc), (λ (e, _). cc))
  check_url-accepted (some u) url = (
    (λ e.
        let (https, e1) = passed _ (not (u.protocol === codes "https:")) e in
        let (plain, e2) = passed _ (not (is_empty u.username) || not (is_empty u.password)) e1 in
        let (port, e3) = passed _ (not (is_empty u.port) && not (u.port === codes "443")) e2 in
        let (same, host) = (check_host-accepted u url (strip_brackets u.hostname)).0 e3 in
        (
          ap some same,
          subst IsSafeHttps same (
            (equal_iff _ _).0 https,
            ((empties_iff _ _).0 plain).0,
            ((empties_iff _ _).0 plain).1,
            (port_iff _).0 port,
            host,
          ),
        )),
    (λ (same, public).
        let (https, user, password, port, host) =
          subst IsSafeHttps (sym (some-injective same)) public in
        passes _ ((equal_iff _ _).1 https) (
          passes _ ((empties_iff _ _).1 (user, password)) (
            passes _ ((port_iff _).1 port) (
              (check_host-accepted u url (strip_brackets u.hostname)).1
                (some-injective same, host))))),
  )

  -- A URL is accepted exactly when it parses to an https URL without credentials on the default
  -- port, whose host, without brackets, is an address that `isNonPublicAddress` lets through, or a
  -- name that is not `localhost`, does not end in `.localhost`, `.internal` or `.local`, and
  -- resolves, to such addresses only; and it is the parsed URL that is returned.
  pub assert_public_https_url-accepted :
      (raw : Text) (url : Url)
      → (assert_public_https_url is_ip parse_url dns raw ≡ accepted url)
        ↔ ((parse_url raw ≡ some url) × IsSafeHttps url)
  unfolding assert_public_https_url
  assert_public_https_url-accepted raw url = check_url-accepted (parse_url raw) url
