-- ===== src/Spv/Headers/Chain.antt =====
-- What a light client promises: a chain of headers, newest first, that grows at its tip.
use kovanica_node.Common.{
  ℕ, zero, suc, ◌+◌, ◌≤◌, ◌<◌, ◌≡◌, refl, sym, ap, ◌∙◌, Option, none, some, List, [], ◌∷◌, take,
  ◌==◌, if◌then◌else◌, arith,
}
use kovanica_node.Common.Map
use kovanica_node.Common.Map.{Map, nat_eq}
use kovanica_node.Dag.Difficulty.{Retarget}
use kovanica_node.Spv.Headers.{BlockHeader, needed, collect, reverse_headers}

pub record Follows (h prev : BlockHeader) : Type 0 where
  pub height : h.height ≡ prev.height + 1
  pub prev_hash : h.prev_hash ≡ prev.id
  pub timestamp_ms : prev.timestamp_ms ≤ h.timestamp_ms
  pub chain_blue_work : prev.chain_blue_work < h.chain_blue_work

-- Each header follows the next one of the list.
abbrev pub IsChain : List BlockHeader → Type 0
IsChain [] = Unit
IsChain (h ∷ []) = Unit
IsChain (h ∷ g ∷ chain) = Follows h g × IsChain (g ∷ chain)

unfoldable pub at_height : ℕ → List BlockHeader → Option BlockHeader
at_height n [] = none
at_height n (h ∷ chain) = if h.height == n then some h else at_height n chain

-- The last headers of the chain, oldest first.
abbrev pub recent : Option Retarget → List BlockHeader → List BlockHeader
recent none chain = []
recent (some retarget) chain = reverse_headers (take (needed retarget) chain)

-- The map of headers has the chain's, as far as `top`.
abbrev Holds : ℕ → Map ℕ BlockHeader → List BlockHeader → Type 0
Holds top headers chain = (n : ℕ) → n ≤ top → Map.get n headers ≡ at_height n chain

collect-nil :
    (headers : Map ℕ BlockHeader) (top left : ℕ)
    → Holds top headers []
    → collect headers top left ≡ []
unfolding collect at_height
collect-nil headers top zero h = refl
collect-nil headers zero (suc left) h = ground (arith, h 0 (omega arith))
collect-nil headers (suc top) (suc left) h = ground (
  arith,
  h (suc top) (omega arith),
  collect-nil headers top (suc left) (λ n l. h n (omega (arith, l))),
)

-- Below the height of the first header only the others are found.
Holds-tail :
    (top : ℕ) (headers : Map ℕ BlockHeader) (h : BlockHeader) (chain : List BlockHeader)
    → h.height ≡ suc top
    → Holds (suc top) headers (h ∷ chain)
    → Holds top headers chain
unfolding at_height
Holds-tail top headers h chain e holds n l = ground (arith, e, l, holds n (omega (arith, l)))

take-nil : (left : ℕ) → take {A = BlockHeader} left [] ≡ []
take-nil zero = refl
take-nil (suc left) = refl

collect-cons :
    (headers : Map ℕ BlockHeader) (top left : ℕ) (h : BlockHeader) (chain : List BlockHeader)
    → h.height ≡ suc top
    → Holds (suc top) headers (h ∷ chain)
    → collect headers (suc top) (suc left) ≡ h ∷ collect headers top left
unfolding collect at_height
collect-cons headers top left h chain e holds = ground (arith, e, holds (suc top) (omega arith))

-- The loop over heights collects what the chain has last.
pub collect-take :
    (headers : Map ℕ BlockHeader) (top left : ℕ) (h : BlockHeader) (chain : List BlockHeader)
    → IsChain (h ∷ chain)
    → h.height ≡ top
    → Holds top headers (h ∷ chain)
    → collect headers top left ≡ take left (h ∷ chain)
collect-take headers top zero h chain c e holds = unfold collect in refl
collect-take headers zero (suc left) h [] c e holds =
    unfold collect at_height in ground (arith, e, take-nil left, holds 0 (omega arith))
collect-take headers zero (suc left) h (g ∷ chain) (f, c) e holds =
    absurd (omega (arith, e, f.height))
collect-take headers (suc top) (suc left) h [] c e holds =
    collect-cons headers top left h [] e holds
    ∙ ap (λ l. h ∷ l)
        (collect-nil headers top left (Holds-tail top headers h [] e holds) ∙ sym (take-nil left))
collect-take headers (suc top) (suc left) h (g ∷ chain) (f, c) e holds =
    collect-cons headers top left h (g ∷ chain) e holds
    ∙ ap (λ l. h ∷ l)
        (collect-take headers top left g chain c (omega (arith, e, f.height))
          (Holds-tail top headers h (g ∷ chain) e holds))
