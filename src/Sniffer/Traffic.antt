-- ===== src/Sniffer/Traffic.antt =====
-- pi/sniffer.py: the record of the domains that clients ask for (`_record_traffic`), and its summary. A
-- domain is given as `lower` and `strip(".")` leave it; `none` for a client is an empty address.
pub mod Totals
use text.Mathlib.Text.{starts_with}
use embedded_ai_harness.Prelude.{
  ℕ, zero, suc, ◌+◌, String, Bool, true, false, not, ◌&&◌, ◌||◌, Option, none, some, List, [], ◌∷◌,
  if◌then◌else◌, str_eq, length,
}
use embedded_ai_harness.Prelude.Dict.{Dict, get, put}

-- An entry of `_traffic`; a set is a list without repetition.
pub record Entry : Type 0 where
  pub ips : List String
  pub country : String
  pub country_code : String
  pub org : String
  pub flagged : Bool
  pub count : ℕ
  pub last_seen : String
  pub clients : List String

pub record Sniffer : Type 0 where
  pub traffic : Dict Entry
  pub clients : Dict (List String)

abbrev pub new_entry : Entry
new_entry = record {
  ips = [];
  country = "";
  country_code = "";
  org = "";
  flagged = false;
  count = 0;
  last_seen = "";
  clients = [];
}

is_member : String → List String → Bool
is_member x [] = false
is_member x (y ∷ ys) = str_eq y x || is_member x ys

-- `set.add` and `set.update`
insert : String → List String → List String
unfolding is_member
insert x xs = if is_member x xs then xs else x ∷ xs

insert_all : List String → List String → List String
unfolding insert
insert_all [] xs = xs
insert_all (y ∷ ys) xs = insert_all ys (insert y xs)

abbrev or_new {ℓ} : {A : Type ℓ} → A → Option A → A
or_new a none = a
or_new a (some b) = b

abbrev add_client : Option String → List String → List String
add_client none xs = xs
add_client (some c) xs = insert c xs

-- The entry after one more access.
pub touched : String → Option String → List String → Entry → Entry
unfolding insert_all
touched now client ips e = record e {
  count = suc e.count;
  last_seen = now;
  clients = add_client client e.clients;
  ips = insert_all ips e.ips;
}

track : String → Option String → Dict (List String) → Dict (List String)
unfolding insert
track domain none cs = cs
track domain (some c) cs =
    if starts_with c "127." then cs else put c (insert domain (or_new [] (get c cs))) cs

-- `_record_traffic`, with the time; no `server_ips` are the empty list.
pub record_traffic : String → String → Option String → List String → Sniffer → Sniffer
unfolding touched track
record_traffic now domain client ips s = if str_eq domain "" then s else record {
  traffic = put domain (touched now client ips (or_new new_entry (get domain s.traffic))) s.traffic;
  clients = track domain client s.clients;
}

-- Of `get_summary`: total_domains, flagged_domains, total_connections and clients.
count_flagged : Dict Entry → ℕ
count_flagged [] = 0
count_flagged ((k, e) ∷ rest) =
    let more = count_flagged rest in if e.flagged then suc more else more

pub total_connections : Dict Entry → ℕ
total_connections [] = 0
total_connections ((k, e) ∷ rest) = e.count + total_connections rest

pub record Summary : Type 0 where
  pub total_domains : ℕ
  pub flagged_domains : ℕ
  pub connections : ℕ
  pub clients : ℕ
  pub flagged_countries : List String

countries : Dict Entry → List String
unfolding insert
countries [] = []
countries ((k, e) ∷ rest) =
    let more = countries rest in
    if e.flagged && not (str_eq e.country_code "") then insert e.country_code more else more

-- `get_summary`, before the countries are sorted.
pub get_summary : Sniffer → Summary
unfolding count_flagged total_connections countries
get_summary s = record {
  total_domains = length s.traffic;
  flagged_domains = count_flagged s.traffic;
  connections = total_connections s.traffic;
  clients = length s.clients;
  flagged_countries = countries s.traffic;
}

pub clear : Sniffer → Sniffer
clear s = record { traffic = []; clients = [] }

-- A call of `_record_traffic`, and a run of them.
pub record Access : Type 0 where
  pub time : String
  pub domain : String
  pub client : Option String
  pub ips : List String

pub record_all : List Access → Sniffer → Sniffer
unfolding record_traffic
record_all [] s = s
record_all (a ∷ rest) s = record_all rest (record_traffic a.time a.domain a.client a.ips s)
