-- ===== src/Sniffer/Traffic/Totals.antt =====
-- pi/sniffer.py: what the summary counts.
use embedded_ai_harness.Prelude.{
  ℕ, suc, ◌+◌, ◌≡◌, refl, ap, not, ◌&&◌, ◌∙◌, String, Option, none, some, List, [], ◌∷◌,
  if◌then◌else◌, str_eq, eq_iff, arith, Bool-cases, inl, inr,
}
use embedded_ai_harness.Prelude.Dict.{Dict, get, put, get-put}
use embedded_ai_harness.Sniffer.Traffic.{
  Entry, Sniffer, new_entry, touched, or_new, record_traffic, total_connections, get_summary, clear,
  Access, record_all,
}

-- How often a domain was asked for: as recorded, and in a list of accesses.
abbrev count : Option Entry → ℕ
count none = 0
count (some e) = e.count

abbrev pub count_of : String → Sniffer → ℕ
count_of domain s = count (get domain s.traffic)

pub asked_for : String → List Access → ℕ
asked_for domain [] = 0
asked_for domain (a ∷ rest) =
    let more = asked_for domain rest in
    if not (str_eq a.domain "") && str_eq a.domain domain then suc more else more

touched-count :
    (now domain : String) (client : Option String) (ips : List String) (o : Option Entry)
    → (touched now client ips (or_new new_entry o)).count ≡ suc (count o)
unfolding touched
touched-count now domain client ips none = refl
touched-count now domain client ips (some e) = refl

total-put :
    (domain : String) (new : Entry) (d : Dict Entry)
    → total_connections (put domain new d) + count (get domain d) ≡ new.count + total_connections d
unfolding total_connections put get
total-put domain new [] = omega arith
total-put domain new ((k, e) ∷ rest) = ground (arith, total-put domain new rest)

record_traffic-total :
    (a : Access) (s : Sniffer)
    → total_connections (record_traffic a.time a.domain a.client a.ips s).traffic ≡ (
        if str_eq a.domain ""
        then total_connections s.traffic
        else suc (total_connections s.traffic))
unfolding record_traffic
record_traffic-total a s = elim (Bool-cases (str_eq a.domain "")) [
  | inl h ↦ rw h refl
  | inr h ↦
      let e = touched a.time a.client a.ips (or_new new_entry (get a.domain s.traffic)) in
      rw h (
        omega (
          arith,
          total-put a.domain e s.traffic,
          touched-count a.time a.domain a.client a.ips (get a.domain s.traffic),
        ))
]

-- The accesses with a domain.
pub counted : List Access → ℕ
counted [] = 0
counted (a ∷ rest) = let more = counted rest in if str_eq a.domain "" then more else suc more

record_all-total :
    (accs : List Access) (s : Sniffer)
    → total_connections (record_all accs s).traffic ≡ counted accs + total_connections s.traffic
unfolding record_all counted
record_all-total [] s = omega arith
record_all-total (a ∷ rest) s =
    let s1 = record_traffic a.time a.domain a.client a.ips s in
    ground (arith, record_all-total rest s1, record_traffic-total a s)

record_traffic-count :
    (domain : String) (a : Access) (s : Sniffer)
    → count_of domain (record_traffic a.time a.domain a.client a.ips s) ≡ (
        if not (str_eq a.domain "") && str_eq a.domain domain
        then suc (count_of domain s)
        else count_of domain s)
unfolding record_traffic
record_traffic-count domain a s = elim (Bool-cases (str_eq a.domain "")) [
  | inl h ↦ rw h refl
  | inr h ↦
      let e = touched a.time a.client a.ips (or_new new_entry (get a.domain s.traffic)) in
      rw (h, get-put a.domain domain e s.traffic)
        (elim (Bool-cases (str_eq a.domain domain)) [
          | inl k ↦ rw k (
              touched-count a.time domain a.client a.ips (get a.domain s.traffic)
              ∙ ap (λ d. suc (count_of d s)) ((eq_iff a.domain domain).0 k))
          | inr k ↦ rw k refl
        ])
]

record_all-count :
    (domain : String) (accs : List Access) (s : Sniffer)
    → count_of domain (record_all accs s) ≡ asked_for domain accs + count_of domain s
unfolding record_all asked_for
record_all-count domain [] s = omega arith
record_all-count domain (a ∷ rest) s =
    let s1 = record_traffic a.time a.domain a.client a.ips s in
    ground (arith, record_all-count domain rest s1, record_traffic-count domain a s)

get_empty : (domain : String) → count (get domain []) ≡ 0
unfolding get
get_empty domain = refl

total_empty : total_connections [] ≡ 0
unfolding total_connections
total_empty = refl

-- Whatever is recorded after a `clear`: each domain's count is the number of the accesses to it, and the
-- summary's total is the number of all accesses with a domain.
pub record_all-counts :
    (accs : List Access) (s : Sniffer) (domain : String)
    → let s' = record_all accs (clear s) in
      (count_of domain s' ≡ asked_for domain accs) × ((get_summary s').connections ≡ counted accs)
unfolding get_summary clear
record_all-counts accs s domain =
    let e = record_all-count domain accs (clear s) in
    let t = record_all-total accs (clear s) in
    (omega (arith, e, get_empty domain), omega (arith, t, total_empty))
