-- ===== src/Segment/ContextLaws.antt =====
-- The request context of the Segment client: what is written is what events carry, and which part of
-- an address is read.
use ocm_service_common.Common.{
  sym, ◌≢◌, false, List, Option, String, not, ◌&&◌, none, some, ◌≡◌, refl, str_eq, if◌then◌else◌,
}
use Prim.Native.Char.{Char, code}
use Prim.Native.String.{[], ◌∷◌, ◌++◌}
use text.Mathlib.TextLemmas.{nil-append, cons-append}
use ocm_service_common.Common.Text.{
  cons_ne_empty, NoChar, split, split_part, split_whole, split-ne-nil,
}
use ocm_service_common.Segment.Types.{AuthPayload}
use ocm_service_common.Segment.Context.{
  set_segment_context, get_user_id, set_context, client_address, first_of, comma, colon,
}
use Prim.Native.Char.{code, Char}

module _ {Ip : Type 0} (parse_ip : String → Option Ip) (payload : AuthPayload)
    (rhit_web_user_id user_agent remote_addr forwarded_for : String) where
  -- An event carries the organization, the locale, the user agent and the parsed address that
  -- SetSegmentContext stored; its user is the creator when one is given, else the account's user, or
  -- for a service account without one the user of the payload.
  set_context-set_segment_context :
      (version creator : String)
      → let ctx =
          set_segment_context parse_ip payload rhit_web_user_id user_agent remote_addr
            forwarded_for in
        (set_context ctx version ≡ record {
          app_name = "OCM Account Manager";
          version = version;
          ip = parse_ip (client_address remote_addr forwarded_for);
          user_agent = user_agent;
          locale = payload.locale;
          group_id = payload.org_id;
        })
        × (get_user_id ctx (some creator) ≡ creator)
        × (get_user_id ctx none ≡ (
            if str_eq rhit_web_user_id "" && not (str_eq payload.client_id "")
            then payload.rhit_user_id
            else rhit_web_user_id))
  unfolding set_context set_segment_context get_user_id
  set_context-set_segment_context version creator = (refl, refl, refl)

first_of_more :
    (p whole : String) (ps : List String) → ps ≢ List.[] → first_of (List.◌∷◌ p ps) whole ≡ p
unfolding first_of
first_of_more p whole List.[] h = absurd (h refl)
first_of_more p whole (List.◌∷◌ q qs) h = refl

append_ne_empty : (p s : String) (d : Char) → str_eq (p ++ (d ∷ s)) "" ≡ false
append_ne_empty [] s d = rw nil-append (cons_ne_empty s d)
append_ne_empty (c ∷ p) s d = rw cons-append (cons_ne_empty (p ++ (d ∷ s)) c)

-- An address of X-Forwarded-For is cut at its first ":", whatever follows: of an IPv6 address only
-- the first group is parsed.
client_address-cut :
    (remote_addr group rest : String) (d : Char)
    → code d ≡ colon
    → NoChar (code d) group
    → NoChar comma (group ++ (d ∷ rest))
    → client_address remote_addr (group ++ (d ∷ rest)) ≡ group
unfolding client_address
client_address-cut remote_addr group rest d is_colon no_colon no_comma =
    rw (append_ne_empty group rest d, split_whole (group ++ (d ∷ rest)) comma no_comma)
      (rw (sym is_colon) (
        rw (split_part group rest d no_colon) (
          first_of_more group (group ++ (d ∷ rest)) (split rest (code d))
            (split-ne-nil rest (code d)))))
