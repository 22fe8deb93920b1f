-- ===== src/Connectors/Chatgpt/Separation.antt =====
-- Two owners' exports.
use Prim.Native.Char.{code}
use Prim.Native.String.append
use mathlib.Core.List.{append_cancel_left}
use text.Mathlib.TextLemmas.{append_cancel_right}
use memapp.Prelude.{ℕ, String, ◌≡◌, ◌≢◌, refl, sym, ap, ◌∙◌, inl, inr, some, List, arith}
use memapp.Prelude.Texts.{◌<>◌}
use memapp.Prelude.Result.{ok}
use memapp.Connectors.Chatgpt.Exports.{FilePath, Files, resolve_export_path}
use memapp.Connectors.Chatgpt.Owners.{IsOwn, resolve_export_path-IsBelow}

-- the last character's code, or that one
last_code : String → ℕ → ℕ
last_code String.[] d = d
last_code (String.◌∷◌ c s) d = last_code s (code c)

append-last_code :
    (s t : String) (d e : ℕ)
    → last_code t 0 ≡ e
    → ((k : ℕ) → last_code t k ≡ e)
    → last_code (s <> t) d ≡ e
unfolding last_code
append-last_code String.[] t d e h0 h = rw (append.nil t) (h d)
append-last_code (String.◌∷◌ c s) t d e h0 h =
    rw (append.cons c s t) (append-last_code s t (code c) e h0 h)

json≢zip : (s t : String) → s <> ".json" ≢ t <> ".zip"
unfolding last_code
json≢zip s t h =
    let ends_n = append-last_code s ".json" 0 110 refl (λ k. refl) in
    let ends_p = append-last_code t ".zip" 0 112 refl (λ k. refl) in
    let same = ap (λ u. last_code u 0) h in omega (arith, ends_n, ends_p, same)

IsOwn-inj : (s t : String) (rest : List String) → IsOwn s rest → IsOwn t rest → s ≡ t
IsOwn-inj s t rest (inl (f, e)) (inl (g, e2)) = cc
IsOwn-inj s t rest (inl (f, e)) (inr (inl e2)) = absurd cc
IsOwn-inj s t rest (inl (f, e)) (inr (inr e2)) = absurd cc
IsOwn-inj s t rest (inr (inl e)) (inl (g, e2)) = absurd cc
IsOwn-inj s t rest (inr (inr e)) (inl (g, e2)) = absurd cc
IsOwn-inj s t rest (inr (inl e)) (inr (inl e2)) = append_cancel_right s t ".json" cc
IsOwn-inj s t rest (inr (inr e)) (inr (inr e2)) = append_cancel_right s t ".zip" cc
IsOwn-inj s t rest (inr (inl e)) (inr (inr e2)) = absurd (json≢zip s t cc)
IsOwn-inj s t rest (inr (inr e)) (inr (inl e2)) = absurd (json≢zip t s cc)

-- The export that is located for one owner is never the one located for another, whatever files there
-- were when each was looked for.
pub resolve_export_path-inj :
    (files later : Files) (dir : FilePath) (s t : String) (path : FilePath)
    → resolve_export_path files (some dir) s ≡ ok path
    → resolve_export_path later (some dir) t ≡ ok path
    → s ≡ t
resolve_export_path-inj files later dir s t path hs ht =
    let one = resolve_export_path-IsBelow files dir s path hs in
    let other = resolve_export_path-IsBelow later dir t path ht in
    let same = append_cancel_left dir.parts one.rest other.rest (sym one.parts ∙ other.parts) in
    IsOwn-inj s t other.rest (rw same at one.own) other.own
