-- ===== src/Command/Lifecycle.antt =====
-- What `run` of cmd/aegis-agent/main.go does in which order, and when the process exits with success.
use aegis_ebpf.Agent.State.{Agent, new}
use aegis_ebpf.Base.{
  ◌≡◌, refl, Bool, true, false, not, ◌&&◌, List, [], ◌∷◌, ◌++◌, Option, none, some, Bytes, Result,
  ok, err, if◌then◌else◌,
}
use aegis_ebpf.Command.Running.{
  Flags, FlagError, Backend, Ending, serve_returned, signalled, World, Effect, print_version,
  close_responder, open_responder, serve, Exit, build_responder, config_of, ended, bound, built,
  decoyed, connected, leveled, parsed, run,
}

abbrev same_bool : Bool → Bool → Bool
same_bool true b = b
same_bool false b = not b

-- A responder is opened once, closed last, and open exactly while an agent that uses it is served; the
-- first argument says whether it is open.
abbrev pub closes : Bool → List Effect → Bool
closes is_open [] = not is_open
closes is_open (open_responder b ∷ es) = not is_open && closes true es
closes is_open (close_responder ∷ []) = is_open
closes is_open (close_responder ∷ _ ∷ _) = false
closes is_open (serve a ∷ es) = same_bool a.responds is_open && closes is_open es
closes is_open (_ ∷ es) = closes is_open es

-- The effects, and the close behind them of a responder that is open.
abbrev with_close : Bool → List Effect → List Effect
with_close true es = es ++ close_responder ∷ []
with_close false es = es

ended-closes :
    (is_open : Bool) (e : Ending) → closes is_open (with_close is_open (ended e).0) ≡ true
unfolding ended
ended-closes true (serve_returned e) = refl
ended-closes false (serve_returned e) = refl
ended-closes true (signalled o) = refl
ended-closes false (signalled o) = refl

served-closes :
    (is_open : Bool) (a : Agent) (e : Ending)
    → a.responds ≡ is_open
    → closes is_open (with_close is_open (serve a ∷ (ended e).0)) ≡ true
served-closes true a e h = rw h (ended-closes true e)
served-closes false a e h = rw h (ended-closes false e)

bound-closes :
    (is_open : Bool) (w : World) (f : Flags) (o : Option Bytes)
    → f.deploy_decoy ≡ is_open
    → closes is_open (with_close is_open (bound w f o).0) ≡ true
unfolding bound new
bound-closes true w f (some e) h = refl
bound-closes false w f (some e) h = refl
bound-closes is_open w f none h = served-closes is_open (new (config_of w f)) w.ending h

if-closes :
    (b : Bool) (x y : Exit)
    → (b ≡ true → closes false x.0 ≡ true)
    → (b ≡ false → closes false y.0 ≡ true)
    → closes false (if b then x else y).0 ≡ true
if-closes true x y h k = h refl
if-closes false x y h k = k refl

built-closes :
    (w : World) (f : Flags) (r : Result Bytes Backend)
    → f.deploy_decoy ≡ true
    → closes false (built w f r).0 ≡ true
unfolding built
built-closes w f (err e) h = refl
built-closes w f (ok b) h = bound-closes true w f (w.bind f.listen) h

decoyed-closes : (w : World) (f : Flags) → closes false (decoyed w f).0 ≡ true
unfolding decoyed
decoyed-closes w f =
    if-closes f.deploy_decoy (built w f (build_responder w f.enrich_k8s f.decoy_image))
      (bound w f (w.bind f.listen))
      (built-closes w f (build_responder w f.enrich_k8s f.decoy_image))
      (bound-closes false w f (w.bind f.listen))

connected-closes :
    (w : World) (f : Flags) (o : Option Bytes) → closes false (connected w f o).0 ≡ true
unfolding connected
connected-closes w f (some e) = refl
connected-closes w f none = decoyed-closes w f

leveled-closes : (w : World) (f : Flags) (o : Option Bytes) → closes false (leveled w f o).0 ≡ true
unfolding leveled
leveled-closes w f (some e) = refl
leveled-closes w f none =
    if-closes f.enrich_k8s (connected w f w.in_cluster) (decoyed w f)
      (λ e. connected-closes w f w.in_cluster) (λ e. decoyed-closes w f)

parsed-closes : (w : World) (r : Result FlagError Flags) → closes false (parsed w r).0 ≡ true
unfolding parsed
parsed-closes w (err e) = refl
parsed-closes w (ok f) =
    if-closes f.show_version (print_version ∷ [], none)
      (leveled w f (w.unmarshal_level f.log_level)) (λ e. refl)
      (λ e. leveled-closes w f (w.unmarshal_level f.log_level))

-- Whatever the outcomes of the calls, `run` opens the decoy responder at most once, serves an agent that
-- responds only while the responder is open and one that does not only without one, and closes a responder
-- that it opened last of all, on every path out.
pub run-closes : (w : World) → closes false (run w).0 ≡ true
unfolding run
run-closes w = parsed-closes w w.flags
