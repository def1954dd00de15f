-- ===== src/Listener/Watcher/Reports.antt =====
-- The observations of a transfer, against a plain count of the logs that the endpoints returned.
use zettapay.Prelude.{
  ℕ, ◌+◌, ◌≡◌, Bool, false, ◌&&◌, Option, none, some, List, [], ◌∷◌, ◌++◌, Text, arith,
  if◌then◌else◌, ◌==◌, ◌===◌, text_eq_iff, subst,
}
use zettapay.Prelude.Dict.{
  Dict, lookup, insert, lookup-insert, HasDistinctKeys, HasDistinctKeys-insert,
}
use zettapay.Listener.Errors.{ok, >>=-eq-ok}
use zettapay.Listener.Quorum.{RpcObservation}
use zettapay.Listener.Quorum.Counts.{reporters}
use zettapay.Listener.Watcher.{RpcLog}
use zettapay.Listener.Watcher.Scan.{
  hex_to_big_int, RpcScan, Entry, log_key, observe, add_to_entry, add_logs, aggregate,
}

abbrev is_value : ℕ → Option ℕ → Bool
is_value v none = false
is_value v (some w) = w == v

-- How many of an endpoint's logs carry the key and the value.
abbrev pub reports : Text → ℕ → List RpcLog → ℕ
reports key v [] = 0
reports key v (lg ∷ lgs) =
    if log_key lg === key && is_value v (hex_to_big_int lg.data_hex)
    then reports key v lgs + 1
    else reports key v lgs

-- The same over all endpoints that responded.
abbrev pub total_reports : Text → ℕ → List RpcScan → ℕ
total_reports key v [] = 0
total_reports key v (s ∷ scans) = reports key v s.logs + total_reports key v scans

abbrev pub observations_of : Option Entry → List RpcObservation
observations_of none = []
observations_of (some e) = e.observations

observe_value :
    (latest : ℕ) (lg : RpcLog) {o : RpcObservation}
    → observe latest lg ≡ ok o
    → hex_to_big_int lg.data_hex ≡ some o.value
unfolding observe
observe_value latest lg e = ground arith

reporters-append :
    (v : ℕ) (os : List RpcObservation) (o : RpcObservation)
    → reporters v (os ++ o ∷ []) ≡ reporters v os + reporters v (o ∷ [])
reporters-append v [] o = omega arith
reporters-append v (p ∷ os) o = ground (arith, reporters-append v os o)

reporters-add_to_entry :
    (v : ℕ) (lg : RpcLog) (o : RpcObservation) (e : Option Entry)
    → reporters v (add_to_entry lg o e).observations
      ≡ reporters v (observations_of e) + reporters v (o ∷ [])
reporters-add_to_entry v lg o none = omega arith
reporters-add_to_entry v lg o (some e) = reporters-append v e.observations o

add_logs-reporters :
    (key : Text) (v latest : ℕ) (d : Dict Entry) (lgs : List RpcLog) {d' : Dict Entry}
    → add_logs latest d lgs ≡ ok d'
    → reporters v (observations_of (lookup key d'))
      ≡ reporters v (observations_of (lookup key d)) + reports key v lgs
unfolding add_logs
add_logs-reporters key v latest d [] e = ground arith
add_logs-reporters key v latest d (lg ∷ lgs) {d'} e =
    let (o, observed, later) = >>=-eq-ok (observe latest lg) _ e in
    let next = insert (log_key lg) (add_to_entry lg o (lookup (log_key lg) d)) d in
    let ih = add_logs-reporters key v latest next lgs later in
    let step = lookup-insert (log_key lg) key (add_to_entry lg o (lookup (log_key lg) d)) d in
    ground (
      arith,
      ih,
      step,
      observe_value latest lg observed,
      reporters-add_to_entry v lg o (lookup (log_key lg) d),
      text_eq_iff (log_key lg) key,
    )

pub aggregate-reporters :
    (key : Text) (v : ℕ) (d : Dict Entry) (scans : List RpcScan) {d' : Dict Entry}
    → aggregate d scans ≡ ok d'
    → reporters v (observations_of (lookup key d'))
      ≡ reporters v (observations_of (lookup key d)) + total_reports key v scans
unfolding aggregate
aggregate-reporters key v d [] e = ground arith
aggregate-reporters key v d (s ∷ scans) e =
    let (d1, added, later) = >>=-eq-ok (add_logs s.latest d s.logs) _ e in
    omega (
      arith,
      add_logs-reporters key v s.latest d s.logs added,
      aggregate-reporters key v d1 scans later,
    )

add_logs-HasDistinctKeys :
    (latest : ℕ) (d : Dict Entry) (lgs : List RpcLog) {d' : Dict Entry}
    → add_logs latest d lgs ≡ ok d'
    → HasDistinctKeys d
    → HasDistinctKeys d'
unfolding add_logs
add_logs-HasDistinctKeys latest d [] e h = subst HasDistinctKeys (ground arith) h
add_logs-HasDistinctKeys latest d (lg ∷ lgs) e h =
    let (o, observed, later) = >>=-eq-ok (observe latest lg) _ e in
    let next = insert (log_key lg) (add_to_entry lg o (lookup (log_key lg) d)) d in
    add_logs-HasDistinctKeys latest next lgs later (HasDistinctKeys-insert _ _ d h)

pub aggregate-HasDistinctKeys :
    (d : Dict Entry) (scans : List RpcScan) {d' : Dict Entry}
    → aggregate d scans ≡ ok d'
    → HasDistinctKeys d
    → HasDistinctKeys d'
unfolding aggregate
aggregate-HasDistinctKeys d [] e h = subst HasDistinctKeys (ground arith) h
aggregate-HasDistinctKeys d (s ∷ scans) e h =
    let (d1, added, later) = >>=-eq-ok (add_logs s.latest d s.logs) _ e in
    aggregate-HasDistinctKeys d1 scans later (add_logs-HasDistinctKeys s.latest d s.logs added h)
