-- ===== src/Metrics/TemplateLaws.antt =====
-- What the replacement of the variables of a path template gives.
use Prim.Native.Char.{Char, code}
use Prim.Native.String.{String, [], ◌∷◌, ◌++◌}
use text.Mathlib.TextLemmas.{nil-append, cons-append}
use ocm_service_common.Common.{arith, ◌≡◌, some}
use ocm_service_common.Common.Text.{NoChar}
use ocm_service_common.Metrics.Template.{replace_vars, after_brace}

after_brace_lem :
    (variable rest : String) (close : Char)
    → code close ≡ b'}'
    → NoChar b'}' variable
    → after_brace (variable ++ (close ∷ rest)) ≡ some ("-" ++ replace_vars rest)
unfolding after_brace
after_brace_lem [] rest close is_close h = rw nil-append (ground (arith, is_close))
after_brace_lem (c ∷ variable) rest close is_close h =
    rw (cons-append c variable (close ∷ rest))
      (ground (arith, is_close, h.0, after_brace_lem variable rest close is_close h.1))

-- Of a template that begins with plain text and then a variable in braces, the plain text is kept, the
-- variable becomes "-", and the rest is treated in the same way.
replace_vars-variable :
    (plain variable rest : String) (open_brace close : Char)
    → code open_brace ≡ b'{'
    → code close ≡ b'}'
    → NoChar b'{' plain
    → NoChar b'}' variable
    → replace_vars (plain ++ (open_brace ∷ (variable ++ (close ∷ rest))))
      ≡ plain ++ ("-" ++ replace_vars rest)
unfolding replace_vars
replace_vars-variable [] variable rest o c is_open is_close h k =
    rw (nil-append (o ∷ (variable ++ (c ∷ rest))), nil-append ("-" ++ replace_vars rest))
      (ground (arith, is_open, after_brace_lem variable rest c is_close k))
replace_vars-variable (d ∷ plain) variable rest o c is_open is_close h k =
    rw
      (
        cons-append d plain (o ∷ (variable ++ (c ∷ rest))),
        cons-append d plain ("-" ++ replace_vars rest),
      )
      (ground (arith, h.0, replace_vars-variable plain variable rest o c is_open is_close h.1 k))
