-- ===== src/Sniffer/Sni.antt =====
-- pi/sniffer.py: the ClientHello that a TLS client sends, and the name that is read from it.
mod Examples
use embedded_ai_harness.Prelude.{
  ℕ, zero, suc, ◌+◌, ◌-◌, ◌*◌, ◌/◌, ◌%◌, ◌≤◌, ◌<◌, ◌≡◌, ◌≢◌, refl, sym, ap, ◌∙◌, Bool, true, false,
  subst, Option, none, some, List, [], ◌∷◌, ◌++◌, length, length-append, drop, map, All, arith, leb,
  if◌then◌else◌, ◌==◌,
}
use embedded_ai_harness.Sniffer.{
  take, u16, ascii, server_name, extensions, after_compression, after_ciphers, after_session,
  after_random, handshake, extract_sni,
}

-- A number in two bytes, before what follows it.
abbrev pub two : ℕ → List ℕ → List ℕ
two n rest = n / 256 % 256 ∷ n % 256 ∷ rest

-- An extension other than the server name: its type and its data.
pub record Extension : Type 0 where
  pub kind : ℕ
  pub content : List ℕ

pub record Hello : Type 0 where
  -- the rest of the record header, the length of the message with version and random bytes, and the fields
  pub version_major : ℕ
  pub version_minor : ℕ
  pub length_high : ℕ
  pub length_low : ℕ
  pub fixed : List ℕ
  pub session_id : List ℕ
  pub cipher_suites : List ℕ
  pub compression : List ℕ
  pub before : List Extension
  pub name : List ℕ
  pub after : List ℕ

pub encode_before : List Extension → List ℕ → List ℕ
encode_before [] rest = rest
encode_before (e ∷ es) rest =
    two e.kind (two (length e.content) (e.content ++ encode_before es rest))

pub encode_name : List ℕ → List ℕ → List ℕ
encode_name name rest =
    two 0 (two (5 + length name) (two (3 + length name) (0 ∷ two (length name) (name ++ rest))))

-- RFC 8446 and RFC 6066; the fields from the extensions back to the session ID.
abbrev from_extensions : Hello → List ℕ
from_extensions h =
    let exts = encode_before h.before (encode_name h.name h.after) in two (length exts) exts

abbrev from_compression : Hello → List ℕ
from_compression h = length h.compression ∷ (h.compression ++ from_extensions h)

abbrev from_ciphers : Hello → List ℕ
from_ciphers h = two (length h.cipher_suites) (h.cipher_suites ++ from_compression h)

abbrev from_session : Hello → List ℕ
from_session h = length h.session_id ∷ (h.session_id ++ from_ciphers h)

pub encode : Hello → List ℕ
unfolding encode_before encode_name
encode h =
    22
    ∷ h.version_major
    ∷ h.version_minor
    ∷ h.length_high
    ∷ h.length_low
    ∷ 1
    ∷ (h.fixed ++ from_session h)

abbrev pub IsOther : Extension → Type 0
IsOther e = (e.kind ≢ 0) × (e.kind < 65_536) × (length e.content < 65_536)

-- The lengths fit their fields, and only the one extension has type 0.
pub record IsHello (h : Hello) : Type 0 where
  pub fixed : length h.fixed ≡ 37
  pub session_id : length h.session_id < 256
  pub cipher_suites : length h.cipher_suites < 65_536
  pub compression : length h.compression < 256
  pub before : All IsOther h.before
  pub name : length h.name < 65_531
  pub total : length (encode_before h.before (encode_name h.name h.after)) < 65_536

two-u16 : (n : ℕ) → n < 65_536 → u16 (n / 256 % 256) (n % 256) ≡ n
two-u16 n h = omega arith

drop-append : (xs ys : List ℕ) → drop (length xs) (xs ++ ys) ≡ ys
drop-append [] ys = refl
drop-append (x ∷ xs) ys = drop-append xs ys

take-append : (xs ys : List ℕ) → take (length xs) (xs ++ ys) ≡ xs
unfolding take
take-append [] ys = refl
take-append (x ∷ xs) ys = ap (λ t. x ∷ t) (take-append xs ys)

server_name-encode :
    (name rest : List ℕ)
    → length name < 65_531
    → server_name (two (3 + length name) (0 ∷ two (length name) (name ++ rest)))
      ≡ some (map ascii name)
unfolding server_name
server_name-encode name rest h =
    rw (two-u16 (length name) (omega arith), take-append name rest, length-append name rest)
      (ground arith)

encode_before-long :
    (before : List Extension) (rest : List ℕ)
    → 4 * length before + length rest ≤ length (encode_before before rest)
unfolding encode_before
encode_before-long [] rest = omega arith
encode_before-long (e ∷ es) rest =
    omega (arith, encode_before-long es rest, length-append e.content (encode_before es rest))

extensions-encode :
    (fuel left : ℕ) (before : List Extension) (name rest : List ℕ)
    → All IsOther before
    → length name < 65_531
    → length before < fuel
    → length (encode_before before (encode_name name rest)) ≤ left
    → extensions fuel left (encode_before before (encode_name name rest)) ≡ some (map ascii name)
unfolding extensions encode_before encode_name
extensions-encode zero left before name rest h k f l = absurd (omega (arith, f))
extensions-encode (suc fuel) left [] name rest h k f l =
    let wide : leb 4 left ≡ true = ground (arith, l) in rw wide (server_name-encode name rest k)
extensions-encode (suc fuel) left (e ∷ es) name rest h k f l =
    let more = encode_before es (encode_name name rest) in
    let long = length-append e.content more in
    let wide : leb 4 left ≡ true = ground (arith, l) in
    let kind : u16 (e.kind / 256 % 256) (e.kind % 256) ≡ e.kind = two-u16 e.kind h.0.1 in
    let size = two-u16 (length e.content) h.0.2 in
    let other : (e.kind == 0) ≡ false = ground (arith, h.0.0) in
    rw (wide, kind, size, other, drop-append e.content more)
      (extensions-encode fuel (left - (4 + length e.content)) es name rest h.1 k (omega (arith, f))
        (omega (arith, l, long)))

after_compression-encode :
    (before : List Extension) (name rest : List ℕ)
    → All IsOther before
    → length name < 65_531
    → let exts = encode_before before (encode_name name rest) in
      length exts < 65_536 → after_compression (two (length exts) exts) ≡ some (map ascii name)
unfolding after_compression encode_name
after_compression-encode before name rest h k t =
    let exts = encode_before before (encode_name name rest) in
    let long = encode_before-long before (encode_name name rest) in
    rw (two-u16 (length exts) t) (
      extensions-encode (length exts) (length exts) before name rest h k (omega (arith, long))
        (omega arith))

-- Whatever a ClientHello holds besides: from one with a server name, in one record and unfragmented, that
-- name is read, byte for byte, with a byte above 127 replaced. Where the lengths fit their fields and no
-- other extension before it has the type of the server name.
pub extract_sni-encode : (h : Hello) → IsHello h → extract_sni (encode h) ≡ some (map ascii h.name)
unfolding extract_sni handshake after_random after_session after_ciphers encode
extract_sni-encode h k =
    let skip : drop 37 (h.fixed ++ from_session h) ≡ from_session h =
      subst (λ n. drop n (h.fixed ++ from_session h) ≡ from_session h) k.fixed
        (drop-append h.fixed (from_session h)) in
    let rest : after_random (from_session h) ≡ some (map ascii h.name) =
      rw
        (
          drop-append h.session_id (from_ciphers h),
          two-u16 (length h.cipher_suites) k.cipher_suites,
          drop-append h.cipher_suites (from_compression h),
          drop-append h.compression (from_extensions h),
        )
        (after_compression-encode h.before h.name h.after k.before k.name k.total) in
    ap after_random skip ∙ rest
