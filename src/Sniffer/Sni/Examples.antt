-- ===== src/Sniffer/Sni/Examples.antt =====
-- pi/sniffer.py: a ClientHello with two extensions, and three accesses.
use embedded_ai_harness.Prelude.{◌≡◌, refl, arith, none, some, [], ◌∷◌, map, List}
use embedded_ai_harness.Sniffer.{ascii, extract_sni}
use embedded_ai_harness.Sniffer.Sni.{
  Hello, IsHello, encode, encode_before, encode_name, extract_sni-encode,
}
use embedded_ai_harness.Sniffer.Traffic.{Sniffer, Access}

abbrev hello : Hello
hello = record {
  version_major = 3;
  version_minor = 1;
  length_high = 0;
  length_low = 90;
  fixed =
      0 ∷ 0 ∷ 86 ∷ 3 ∷ 3 ∷ 1 ∷ 2 ∷ 3 ∷ 4 ∷ 5 ∷ 6 ∷ 7 ∷ 8 ∷ 1 ∷ 2 ∷ 3 ∷ 4 ∷ 5 ∷ 6 ∷ 7 ∷ 8 ∷ 1 ∷ 2 ∷ 3
      ∷ 4 ∷ 5 ∷ 6 ∷ 7 ∷ 8 ∷ 1 ∷ 2 ∷ 3 ∷ 4 ∷ 5 ∷ 6 ∷ 7 ∷ 8 ∷ [];
  session_id = 9 ∷ [];
  cipher_suites = 19 ∷ 1 ∷ [];
  compression = 0 ∷ [];
  before = record { kind = 10; content = 0 ∷ 2 ∷ 0 ∷ 29 ∷ [] } ∷ [];
  name = 97 ∷ 46 ∷ 100 ∷ 101 ∷ [];
  after = 0 ∷ 23 ∷ 0 ∷ 0 ∷ [];
}

hello-IsHello : IsHello hello
unfolding encode_before encode_name
hello-IsHello = record {
  fixed = refl;
  session_id = omega arith;
  cipher_suites = omega arith;
  compression = omega arith;
  before = ((omega arith, omega arith, omega arith), tt);
  name = omega arith;
  total = omega arith;
}

extract_sni-encode_example : extract_sni (encode hello) ≡ some (map ascii hello.name)
extract_sni-encode_example = extract_sni-encode hello hello-IsHello

abbrev accesses : List Access
accesses =
    record { time = "1"; domain = "a.de"; client = some "192.168.4.5"; ips = [] }
    ∷ record { time = "2"; domain = ""; client = none; ips = [] }
    ∷ record { time = "3"; domain = "a.de"; client = none; ips = "1.2.3.4" ∷ [] }
    ∷ []

abbrev nothing : Sniffer
nothing = record { traffic = []; clients = [] }
