-- ===== src/Application/ApiTokens/Secrets.antt =====
-- The written form of an API token, internal/application/password_tokens.go.
use Prim.Native.String as Text
use Prim.Native.String.append
use Prim.Native.String.{◌++◌}
use orbit_auth.Prelude.{String, ◌≡◌, ◌≢◌, refl, sym, subst, ap, ◌∙◌, some}
use orbit_auth.Prelude.GoText.{trim_space, NoSpaces, trim_space_of_NoSpaces}
use orbit_auth.Prelude.Cuts.{
  cut_bytes, cut_at, trim_prefix, HasNo, append-cut_bytes, trim_prefix-append, cut_at-append,
  NoSpaces-append, append-NoSpaces, append-HasNo,
}
use orbit_auth.Domain.ApiTokens.{api_token_scheme}

-- A secret that the generator makes: base64url text of more than eight letters, in two parts.
pub record IsSecret (raw prefix rest : String) : Type 0 where
  pub parts : cut_bytes 8 raw ≡ some (prefix, rest)
  pub more : rest ≢ ""
  pub no_spaces : NoSpaces raw
  pub no_dots : HasNo b'.' raw

abbrev pub written : String → String → String
written prefix rest = api_token_scheme ++ (prefix ++ ("." ++ rest))

written-NoSpaces :
    (raw prefix rest : String) → IsSecret raw prefix rest → NoSpaces (written prefix rest)
written-NoSpaces raw prefix rest s =
    let both =
      append-NoSpaces prefix rest
        (subst NoSpaces (sym (append-cut_bytes 8 raw prefix rest s.parts).0) s.no_spaces) in
    NoSpaces-append api_token_scheme (prefix ++ ("." ++ rest)) (refl, (refl, (refl, (refl, tt))))
      (NoSpaces-append prefix ("." ++ rest) both.0 (NoSpaces-append "." rest (refl, tt) both.1))

dotted : (rest : String) → "." ++ rest ≡ Text.◌∷◌ "." rest
dotted rest = append.cons "." Text.[] rest ∙ ap (λ x. Text.◌∷◌ "." x) (append.nil rest)

-- The written token is taken apart into the two parts.
pub parts-written :
    (raw prefix rest : String)
    → IsSecret raw prefix rest
    → cut_at b'.' (trim_prefix (trim_space (written prefix rest)) api_token_scheme)
      ≡ some (prefix, rest)
parts-written raw prefix rest s =
    rw (trim_space_of_NoSpaces (written prefix rest) (written-NoSpaces raw prefix rest s)) (
      rw (trim_prefix-append api_token_scheme (prefix ++ ("." ++ rest))) (
        ap (λ x. cut_at b'.' (prefix ++ x)) (dotted rest)
        ∙ cut_at-append "." prefix rest (
            append-HasNo b'.' prefix rest
              (subst (HasNo b'.') (sym (append-cut_bytes 8 raw prefix rest s.parts).0) s.no_dots))))
