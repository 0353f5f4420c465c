-- ===== src/Web/Fields.antt =====
-- internal/platform/web/validation.go: the text of an `InvalidError`, in ASCII.
use mathlib.Core.List.{append-nil, append_assoc}
use identity_oracle.Prelude.{◌≡◌, refl, ◌∙◌, ap, sym, List, [], ◌∷◌, ◌++◌}
use identity_oracle.Errors.{Invalid}
use identity_oracle.Storage.{Bytes, codes}

-- `,{%s:%s}` of one field.
abbrev pub field_text : Invalid → Bytes
field_text v = codes ",{" ++ codes v.fld ++ codes ":" ++ codes v.tag ++ codes "}"

-- The loop of `Error`, from what `str` is so far.
abbrev pub invalid_text_from : Bytes → List Invalid → Bytes
invalid_text_from str [] = str
invalid_text_from str (v ∷ err) = invalid_text_from (str ++ field_text v) err

abbrev pub invalid_text : List Invalid → Bytes
invalid_text err = invalid_text_from [] err

invalid_text_from-append :
    (str : Bytes) (err : List Invalid) → invalid_text_from str err ≡ str ++ invalid_text err
invalid_text_from-append str [] = sym (append-nil str)
invalid_text_from-append str (v ∷ err) =
    invalid_text_from-append (str ++ field_text v) err
    ∙ append_assoc str (field_text v) (invalid_text err)
    ∙ ap (λ rest. str ++ rest) (sym (invalid_text_from-append (field_text v) err))

-- The text of the fields of two lists is that of the first before that of the second.
pub invalid_text-append :
    (err more : List Invalid) → invalid_text (err ++ more) ≡ invalid_text err ++ invalid_text more
invalid_text-append [] more = refl
invalid_text-append (v ∷ err) more =
    invalid_text_from-append (field_text v) (err ++ more)
    ∙ ap (λ rest. field_text v ++ rest) (invalid_text-append err more)
    ∙ sym (append_assoc (field_text v) (invalid_text err) (invalid_text more))
    ∙ ap (λ rest. rest ++ invalid_text more) (sym (invalid_text_from-append (field_text v) err))
