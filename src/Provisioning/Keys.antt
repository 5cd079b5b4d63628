-- ===== src/Provisioning/Keys.antt =====
-- The key of a tunnel and its namespace and name.
use Prim.Native.Char.{code}
use text.Mathlib.TextLemmas.{nil-append, cons-append}
use frp_operator.Prelude.{
  String, ◌≡◌, refl, sym, ap, ◌∙◌, false, some, arith, string_eq, nat_eq, ◌==◌, contains,
}
use frp_operator.Text.{codes}
use frp_operator.Api.{Tunnel}
use frp_operator.Scheduling.Exits.{concat}
use frp_operator.Scheduling.Solve.{tunnel_key}
use frp_operator.Provisioning.{cut_text, or_whole, split_key}

slash-concat : (name : String) → concat "/" name ≡ String.◌∷◌ "/" name
slash-concat name =
    cons-append "/" String.[] name ∙ ap (λ (s : String). String.◌∷◌ "/" s) (nil-append name)

cut_text-concat :
    (ns name : String)
    → contains (codes ns) b'/' ≡ false
    → cut_text b'/' (concat ns (concat "/" name)) ≡ some (ns, name)
unfolding cut_text
cut_text-concat String.[] name none_there =
    ap (λ (s : String). cut_text b'/' s) (nil-append (concat "/" name) ∙ slash-concat name)
cut_text-concat (String.◌∷◌ c ns) name none_there =
    let later = cut_text-concat ns name (ground (arith, none_there)) in
    let first : (code c == b'/') ≡ false = ground (arith, none_there) in
    ap (λ (s : String). cut_text b'/' s) (cons-append c ns (concat "/" name))
    ∙ rw (cut_text, first, later) refl

-- `splitKey` gives back what `tunnelKey` made its key of, where the namespace has no slash.
pub split_key-tunnel_key :
    {Q : Type 0}
    → (t : Tunnel Q) → contains (codes t.meta.namespace) b'/' ≡ false
    → split_key (tunnel_key t) ≡ (t.meta.namespace, t.meta.name)
unfolding split_key tunnel_key
split_key-tunnel_key t plain =
    ap (or_whole (concat t.meta.namespace (concat "/" t.meta.name)))
      (cut_text-concat t.meta.namespace t.meta.name plain)

-- Two tunnels under one key have the same namespace and the same name, where their namespaces have no
-- slash.
pub tunnel_key_inj :
    {Q : Type 0}
    → (s t : Tunnel Q) → contains (codes s.meta.namespace) b'/' ≡ false
    → contains (codes t.meta.namespace) b'/' ≡ false
    → tunnel_key s ≡ tunnel_key t
    → (s.meta.namespace ≡ t.meta.namespace) × (s.meta.name ≡ t.meta.name)
tunnel_key_inj s t plain plain' same =
    let parts =
      sym (split_key-tunnel_key s plain) ∙ ap split_key same ∙ split_key-tunnel_key t plain' in
    (ap (λ (p : String × String). p.0) parts, ap (λ (p : String × String). p.1) parts)
