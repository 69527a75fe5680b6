-- ===== src/Auth/Phc/RoundTrip.antt =====
-- What `encodePHC` prints is what `decodePHC` reads.
use dota_cuck.Prelude.{
  ℕ, ◌%◌, ◌^◌, ◌<◌, ◌≡◌, refl, inl, List, [], ◌∷◌, ◌++◌, some, arith, append_assoc, append-nil,
  Bytes, codes, AreBytes, bytes_eq_refl, length, All-append,
}
use dota_cuck.Prelude.Result.{ok}
use dota_cuck.Go.Decimal.{
  format_uint, scan_uint-format_uint, scan_char, AreDigits, format_uint-AreDigits,
}
use dota_cuck.Go.Scan.{pos}
use dota_cuck.Go.Split.{Lacks, joined, split, split-joined}
use dota_cuck.Go.Base64.{
  raw_std_encoding, encode_to_string, decode_string-encode_to_string, encode_to_string-LacksDollar,
}
use dota_cuck.Auth.Phc.Scan.{scan_version, scan_params}
use dota_cuck.Auth.Phc.{PasswordParams, version, encode_phc, decode_phc, decode_list}

version_text : Bytes
version_text = codes "v=" ++ format_uint version

params_text : PasswordParams → Bytes
params_text p =
    codes "m="
    ++ (format_uint p.memory
        ++ (codes ",t=" ++ (format_uint p.time ++ (codes ",p=" ++ format_uint p.threads))))

-- The parts behind the first `$`.
abbrev parts : PasswordParams → Bytes → Bytes → List Bytes
parts p salt key =
    codes "argon2id"
    ∷ version_text
    ∷ params_text p
    ∷ encode_to_string raw_std_encoding salt
    ∷ encode_to_string raw_std_encoding key
    ∷ []

-- The printed string is the six parts with `$` between them.
encode_phc-joined :
    (p : PasswordParams) (salt key : Bytes)
    → encode_phc p salt key ≡ joined b'$' [] (parts p salt key)
unfolding encode_phc version_text params_text
encode_phc-joined p salt key = simp append_assoc

AreDigits-Lacks : (s : Bytes) → AreDigits s → Lacks b'$' s
AreDigits-Lacks [] h = tt
AreDigits-Lacks (c ∷ s) (hc, hs) = (ground arith, AreDigits-Lacks s hs)

format_uint-Lacks : (n : ℕ) → Lacks b'$' (format_uint n)
format_uint-Lacks n = AreDigits-Lacks _ (format_uint-AreDigits n)

version_text-Lacks : Lacks b'$' version_text
unfolding version_text
version_text-Lacks = All-append _ (codes "v=") _ (refl, (refl, tt)) (format_uint-Lacks version)

params_text-Lacks : (p : PasswordParams) → Lacks b'$' (params_text p)
unfolding params_text
params_text-Lacks p =
    All-append _ (codes "m=") _ (refl, (refl, tt))
      (All-append _ (format_uint p.memory) _ (format_uint-Lacks p.memory) (
        All-append _ (codes ",t=") _ (refl, (refl, (refl, tt)))
          (All-append _ (format_uint p.time) _ (format_uint-Lacks p.time) (
            All-append _ (codes ",p=") _ (refl, (refl, (refl, tt)))
              (format_uint-Lacks p.threads)))))

scan_version_text : scan_version version_text ≡ some (pos version)
unfolding scan_version version_text format_uint
scan_version_text = refl

-- The three numbers fit their variables.
pub record Fits (p : PasswordParams) : Type 0 where
  pub memory_fits : p.memory < 2 ^ 32
  pub time_fits : p.time < 2 ^ 32
  pub threads_fit : p.threads < 2 ^ 8

scan_params-params_text :
    (p : PasswordParams) → Fits p → scan_params (params_text p) ≡ some (p.memory, p.time, p.threads)
unfolding scan_params params_text scan_char
scan_params-params_text p fits = rw (
  scan_uint-format_uint 32 p.memory _ fits.memory_fits refl,
  scan_uint-format_uint 32 p.time _ fits.time_fits refl,
  ← append-nil (format_uint p.threads),
  scan_uint-format_uint 8 p.threads [] fits.threads_fit tt,
)

split-encode_phc :
    (p : PasswordParams) (salt key : Bytes)
    → split b'$' (encode_phc p salt key) ≡ [] ∷ parts p salt key
split-encode_phc p salt key = rw (encode_phc-joined p salt key) (
    split-joined b'$' [] (parts p salt key) tt (
      (refl, (refl, (refl, (refl, (refl, (refl, (refl, (refl, tt)))))))),
      (
        version_text-Lacks,
        (
          params_text-Lacks p,
          (
            encode_to_string-LacksDollar _ salt (inl refl),
            (encode_to_string-LacksDollar _ key (inl refl), tt),
          ),
        ),
      ),
    ))

-- The parameters as `decodePHC` returns them: the lengths are those of the two byte strings.
abbrev pub relengthened : PasswordParams → Bytes → Bytes → PasswordParams
relengthened p salt key = record p {
  key_len = length key % 2 ^ 32;
  salt_len = length salt % 2 ^ 32;
}

decode_list-parts :
    (p : PasswordParams) (salt key : Bytes)
    → Fits p
    → AreBytes salt
    → AreBytes key
    → decode_list ([] ∷ parts p salt key) ≡ ok (relengthened p salt key, salt, key)
unfolding decode_list
decode_list-parts p salt key fits hs hk = rw (
  bytes_eq_refl (codes "argon2id"),
  scan_version_text,
  scan_params-params_text p fits,
  decode_string-encode_to_string _ salt (inl refl) hs,
  decode_string-encode_to_string _ key (inl refl) hk,
)

decode_phc_lem : (s : Bytes) → decode_phc s ≡ decode_list (split b'$' s)
unfolding decode_phc
decode_phc_lem s = refl

-- Decoding an encoded hash gives back the salt, the key and the cost parameters, with the lengths
-- of the salt and the key in the last two fields, if the three printed numbers fit their variables
-- and salt and key are bytes.
pub decode_phc-encode_phc :
    (p : PasswordParams) (salt key : Bytes)
    → Fits p
    → AreBytes salt
    → AreBytes key
    → decode_phc (encode_phc p salt key) ≡ ok (relengthened p salt key, salt, key)
decode_phc-encode_phc p salt key fits hs hk =
    rw (decode_phc_lem (encode_phc p salt key), split-encode_phc p salt key)
      (decode_list-parts p salt key fits hs hk)
