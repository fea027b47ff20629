-- ===== src/Main/Dialogue.antt =====
-- What the history is at any prompt: the system prompt, and then questions, each with its answer.
use beta_boot_git_ops.Chat.{retain_system, is_quit}
use beta_boot_git_ops.Request.{Message, message}
use beta_boot_git_ops.Text.{codes, text_eq}
use beta_boot_git_ops.Base.{
  ◌≡◌, refl, sym, ap, ◌∙◌, false, Option, none, some, List, [], ◌∷◌, ◌++◌, append-nil, append_assoc,
  snoc, is_empty, All, All-append, Text,
}

abbrev pub opening : Option Text → List Message
opening none = []
opening (some sys) = message (codes "system") sys ∷ []

abbrev pub exchanges : List (Text × Text) → List Message
exchanges [] = []
exchanges ((q, a) ∷ es) = message (codes "user") q ∷ message (codes "assistant") a ∷ exchanges es

-- Not empty, and none of the commands.
abbrev pub IsQuestion : Text → Type 0
IsQuestion q = (is_empty q ≡ false) × (is_quit q ≡ false) × (text_eq q (codes "/reset") ≡ false)

pub record Dialogue (sys : Option Text) (ms : List Message) : Type 0 where
  pub pairs : List (Text × Text)
  pub history : ms ≡ opening sys ++ exchanges pairs
  pub questions : All (λ (x : Text × Text). IsQuestion x.0) pairs

retain_system-exchanges : (es : List (Text × Text)) → retain_system (exchanges es) ≡ []
unfolding retain_system text_eq
retain_system-exchanges [] = refl
retain_system-exchanges (e ∷ es) = retain_system-exchanges es

retain_system-opening :
    (sys : Option Text) (es : List (Text × Text))
    → retain_system (opening sys ++ exchanges es) ≡ opening sys
unfolding retain_system text_eq
retain_system-opening none es = retain_system-exchanges es
retain_system-opening (some t) es =
    ap (◌∷◌ (message (codes "system") t)) (retain_system-exchanges es)

exchanges-append :
    (es fs : List (Text × Text)) → exchanges (es ++ fs) ≡ exchanges es ++ exchanges fs
exchanges-append [] fs = refl
exchanges-append ((q, a) ∷ es) fs =
    ap (λ ms. message (codes "user") q ∷ message (codes "assistant") a ∷ ms)
      (exchanges-append es fs)

pub Dialogue-reset :
    (sys : Option Text) (ms : List Message) → Dialogue sys ms → Dialogue sys (retain_system ms)
Dialogue-reset sys ms d = record {
  pairs = [];
  history =
      ap retain_system d.history
      ∙ retain_system-opening sys d.pairs
      ∙ sym (append-nil (opening sys));
  questions = tt;
}

pub Dialogue-answered :
    (sys : Option Text) (ms : List Message) (q a : Text)
    → IsQuestion q
    → Dialogue sys ms
    → Dialogue sys (ms ++ (message (codes "user") q ∷ message (codes "assistant") a ∷ []))
Dialogue-answered sys ms q a h d = record {
  pairs = snoc d.pairs (q, a);
  history =
      ap (λ ms. ms ++ exchanges ((q, a) ∷ [])) d.history
      ∙ append_assoc (opening sys) (exchanges d.pairs) (exchanges ((q, a) ∷ []))
      ∙ ap (λ ms. opening sys ++ ms) (sym (exchanges-append d.pairs ((q, a) ∷ [])));
  questions =
      All-append (λ (x : Text × Text). IsQuestion x.0) d.pairs ((q, a) ∷ []) d.questions (h, tt);
}
