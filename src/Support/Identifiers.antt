-- ===== src/Support/Identifiers.antt =====
-- What `sanitize_identifier` returns: an identifier that CEL can declare as a variable.
use streaming_runtime_go.Prelude.{
  ℕ, Text, Lacks, [], ◌∷◌, ◌≡◌, ◌≢◌, refl, arith, length, replace_all, replace_all-Lacks,
  replace_all-keeps_Lacks, replace_all_of_Lacks, length-replace_all, ◌∙◌,
}
use streaming_runtime_go.Support.{sanitize_identifier}

abbrev pub dash : ℕ
dash = b'-'

abbrev pub dot : ℕ
dot = b'.'

abbrev pub IsClean : Text → Type 0
IsClean id = Lacks dash id × Lacks dot id

dash_ne_underscore : dash ≢ b'_'
dash_ne_underscore h = omega arith

dot_ne_underscore : dot ≢ b'_'
dot_ne_underscore h = omega arith

-- The result has no dash and no dot, and as many bytes as the identifier.
pub sanitize_identifier-IsClean :
    (id : Text) → IsClean (sanitize_identifier id) × (length (sanitize_identifier id) ≡ length id)
unfolding sanitize_identifier
sanitize_identifier-IsClean [] = ((tt, tt), refl)
sanitize_identifier-IsClean (c ∷ s) =
    let id = c ∷ s in
    let undashed = replace_all id dash b'_' in
    (
      (
        replace_all-keeps_Lacks dash undashed dot b'_' dash_ne_underscore
            (replace_all-Lacks id dash b'_' dash_ne_underscore),
        replace_all-Lacks undashed dot b'_' dot_ne_underscore,
      ),
      length-replace_all undashed dot b'_' ∙ length-replace_all id dash b'_',
    )

pub sanitize_identifier_of_IsClean : (id : Text) → IsClean id → sanitize_identifier id ≡ id
unfolding sanitize_identifier
sanitize_identifier_of_IsClean [] h = refl
sanitize_identifier_of_IsClean (c ∷ s) (hd, ht) =
    rw (replace_all_of_Lacks (c ∷ s) dash b'_' hd) (replace_all_of_Lacks (c ∷ s) dot b'_' ht)

-- A second call changes nothing.
pub sanitize_identifier_idem :
    (id : Text) → sanitize_identifier (sanitize_identifier id) ≡ sanitize_identifier id
sanitize_identifier_idem id =
    sanitize_identifier_of_IsClean (sanitize_identifier id) (sanitize_identifier-IsClean id).0
