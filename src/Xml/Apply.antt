-- ===== src/Xml/Apply.antt =====
-- Application of closures in XML/bin/runtime.c. Compiled code, which `rv_call` calls through inline
-- assembly, is the parameter `call`.
pub mod Curry
pub mod New
use pudge_with_mo_ml.Base.{
  ℕ, ◌+◌, ◌*◌, List, [], ◌∷◌, ◌++◌, ◌==◌, if◌then◌else◌, Outcome, ok, abort, ◌>>=◌,
}
use pudge_with_mo_ml.Base.Words.{add_word}
use pudge_with_mo_ml.Memory.{Memory, store, read_words}
use pudge_with_mo_ml.Xml.{Runtime}
use pudge_with_mo_ml.Xml.Value.{slt}
use pudge_with_mo_ml.Xml.Collect.{rounds}
use pudge_with_mo_ml.Xml.Alloc.{copy_closure}

abbrev pub Call : Type 0
Call = (code : ℕ) → (args : List ℕ) → Runtime → Outcome (ℕ × Runtime)

-- `g->args[g->received++] = arg`
unfoldable pub push_arg : (g arg : ℕ) → Memory → Memory
push_arg g arg m =
    let received = m (g + 16) in
    store (store m (g + 32 + 8 * received) arg) (g + 16) (add_word received 1)

-- `apply1`; a panic aborts.
unfoldable pub apply1 : Call → (f arg : ℕ) → Runtime → Outcome (ℕ × Runtime)
apply1 call f arg w =
    let r = w.mem (f + 16) in
    let n = w.mem (f + 8) in
    if f == 0
    then abort
    else if slt (add_word r 1) n
    then (copy_closure f w >>= λ g. ok (g.0, record g.1 { mem = push_arg g.0 arg g.1.mem }))
    else if add_word r 1 == n
    then call (w.mem (f + 24)) (read_words w.mem (f + 32) (rounds r) ++ arg ∷ []) w
    else abort
