-- ===== src/Banker/History.antt =====
-- What every run of the program of Project-6/banker.c keeps.
use learning_ei.Base.{◌≡◌, subst, inl, inr, Option-cases, true, some, List, [], ◌∷◌}
use learning_ei.Banker.{Bank, Row, is_safe, request_resources, release_resources}
use learning_ei.Banker.Session.{Command, rq, rl, star, other, Reply, exec, run}
use learning_ei.Banker.Invariant.{
  IsBalanced, request_resources-IsBalanced, release_resources-IsBalanced,
}
use learning_ei.Banker.Steady.{request_resources-safe, release_resources-safe}

-- What a run keeps.
pub record IsSound (total : Row) (b : Bank) : Type 0 where
  pub balanced : IsBalanced total b
  pub safe : is_safe b ≡ true

exec-IsSound :
    {total : Row} {b b' : Bank} (command : Command) {reply : Reply}
    → IsSound total b
    → exec command b ≡ some (reply, b')
    → IsSound total b'
unfolding exec
exec-IsSound {b = b} {b' = b'} (rq customer request) v e =
    let same : (request_resources customer request b).1 ≡ b' = cc in
    subst (IsSound _) same (record {
      balanced = request_resources-IsBalanced customer request v.balanced;
      safe = request_resources-safe customer request v.balanced v.safe;
    })
exec-IsSound {b = b} {b' = b'} (rl customer release) v e =
    elim (Option-cases (release_resources customer release b)) [
      | inl fault ↦ cc (rw (fault, exec) at e)
      | inr ((code, d), ok) ↦
          let same : d ≡ b' = cc (rw (ok, exec) at e) in
          subst (IsSound _) same (record {
            balanced = release_resources-IsBalanced customer release code v.balanced ok;
            safe = release_resources-safe customer release code v.balanced v.safe ok;
          })
    ]
exec-IsSound star v e = subst (IsSound _) (cc) v
exec-IsSound other v e = subst (IsSound _) (cc) v

-- Whatever commands arrive, a bank that starts with balanced books and in a safe state ends with
-- them, unless a release runs into undefined behaviour.
pub run-IsSound :
    {total : Row} {b b' : Bank} (commands : List Command)
    → IsSound total b
    → run commands b ≡ some b'
    → IsSound total b'
unfolding run
run-IsSound [] v e = subst (IsSound _) (cc) v
run-IsSound {b = b} (command ∷ rest) v e = elim (Option-cases (exec command b)) [
  | inl fault ↦ cc (rw (fault, run) at e)
  | inr ((reply, d), ok) ↦ run-IsSound rest (exec-IsSound command v ok) (rw (ok, run) at e)
]
