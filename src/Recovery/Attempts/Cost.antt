-- ===== src/Recovery/Attempts/Cost.antt =====
-- A decision of the recovery agent is recorded once and costs one attempt, or costs nothing.
use agentic_dag.Prelude.{
  ◌≡◌, ◌⊎◌, refl, subst, ap, ◌∙◌, String, Bool, true, false, not, List, [], ◌∷◌, ◌++◌, Option, none,
  some, ◌==◌, string_eq, if◌then◌else◌, arith, inl, inr, Bool-cases, Option-cases, pred_int, ℤ,
}
use text.Mathlib.TextEquality.{eq_iff}
use agentic_dag.Domain.{
  Node, NodeAgent, AgentSession, DagSpec, Graph, RecoverCommand, NodeRecovery, cause_value,
  ExitCode, success, failure,
}
use agentic_dag.Labels
use agentic_dag.World.{World}
use agentic_dag.Services.Commands.{latest_session}
use agentic_dag.Store.{
  M, Store, Result, Failure, ok, raised, call, Result-cases, ◌>>=◌, ◌>>◌, and_then, pure, query,
  perform, modify, on_option, read_node, find_row, update_where, spend_recovery_attempt, set_nodes,
  get_by_node_id,
}
use agentic_dag.Store.Nodes.{read_node-id}
use agentic_dag.Store.Moves.{Moves, then-Moves}
use agentic_dag.Store.Recovery.{add_recovery}
use agentic_dag.Recovery.Attempts.{Unspent, Unspent-Frame, allowance, allowed, perform-Unspent}
use agentic_dag.Recovery.Attempts.Steps.{
  can_record_unrecoverable-Unspent, restore_marks-Unspent, wake_node-Unspent, wait_for-Unspent,
  leave_to_human-Unspent,
}
use agentic_dag.Recovery.Service.{
  say, recovery_row, can_record_unrecoverable, restore_marks, wake_node, wait_for, leave_to_human,
  record_recovery, shown_bool, or_time, unless, recover_node, recover,
}

abbrev pub is_success : Result ExitCode → Bool
is_success (ok success) = true
is_success _ = false

abbrev pub is_failure : Result ExitCode → Bool
is_failure (ok failure) = true
is_failure _ = false

abbrev spent : Option ℤ → Option ℤ
spent none = none
spent (some attempts) = some (pred_int attempts)

-- A recovery of the node is recorded, and its row, if there is one, has one attempt less.
pub Spent : String → Store → Store → Type 0
Spent node_id store after =
    ((row : NodeRecovery) × (row.node_id ≡ node_id)
      × (after.recoveries ≡ store.recoveries ++ row ∷ []))
    × ((id : String)
        → allowance id after
          ≡ (if node_id == id then spent (allowance id store) else allowance id store))

-- A recovery of the node is recorded, and no attempt is spent.
pub Recorded : String → Store → Store → Type 0
Recorded node_id store after =
    ((row : NodeRecovery) × (row.node_id ≡ node_id)
      × (after.recoveries ≡ store.recoveries ++ row ∷ []))
    × ((id : String) → allowance id after ≡ allowance id store)

-- A success records and spends, a refusal does neither. An exception may fall on either side, and
-- between the two only where it is the one that the database raised for the attempt.
pub IsPaid : Result (Unit {0}) → String → Store → Result ExitCode → Store → Type 0
IsPaid commits node_id store result after =
    (Unspent store after × (is_success result ≡ false))
    ⊎ ((Spent node_id store after × (is_failure result ≡ false))
        ⊎ (Recorded node_id store after
            × ((failure : Failure) × (commits ≡ raised failure) × (result ≡ raised failure))))

spend-allowance :
    (node_id other : String) (nodes : List Node)
    → allowed (read_node other (spend_recovery_attempt node_id nodes)) ≡ (
        if node_id == other
        then spent (allowed (read_node other nodes))
        else allowed (read_node other nodes))
unfolding read_node find_row spend_recovery_attempt update_where
spend-allowance node_id other [] = ground arith
spend-allowance node_id other (node ∷ nodes) = elim (Bool-cases (node_id == other)) [
  | inl same ↦ ground (
    arith,
    spend-allowance node_id other nodes,
    eq_iff node.id node_id,
    eq_iff node.id other,
    eq_iff node_id other,
  )
  | inr differs ↦ ground (
    arith,
    spend-allowance node_id other nodes,
    eq_iff node.id node_id,
    eq_iff node.id other,
    eq_iff node_id other,
  )
]

Spent-after :
    (node_id : String) (store after last : Store)
    → Spent node_id store after
    → Unspent after last
    → Spent node_id store last
unfolding Spent Unspent
Spent-after node_id store after last ((row, same, recorded), left) (kept, same_left) =
    ((row, same, kept ∙ recorded), λ id. same_left id ∙ left id)

-- The two statements, each of which the database may refuse, and what follows them.
abbrev paying : (takes costs : Result (Unit {0})) → NodeRecovery → M (Unit {0}) → M (Unit {0})
paying takes costs row rest =
    call takes
    >> (modify (add_recovery row)
        >> (call costs >> (modify (set_nodes (spend_recovery_attempt row.node_id)) >> rest)))

paid-Spent :
    (row : NodeRecovery) (rest : M (Unit {0})) (store : Store)
    → Moves Unspent rest
    → Spent row.node_id store
        (rest (set_nodes (spend_recovery_attempt row.node_id) (add_recovery row store))).1
unfolding Spent allowance set_nodes add_recovery
paid-Spent row rest store keeps =
    let opened = set_nodes (spend_recovery_attempt row.node_id) (add_recovery row store) in
    Spent-after row.node_id store opened _
      ((row, refl, refl), λ id. spend-allowance row.node_id id store.nodes) (keeps opened)

added-Recorded :
    (row : NodeRecovery) (store : Store) → Recorded row.node_id store (add_recovery row store)
unfolding Recorded allowance add_recovery
added-Recorded row store = ((row, refl, refl), λ id. refl)

paying-IsPaid :
    (takes costs : Result (Unit {0})) (row : NodeRecovery) (rest : M (Unit {0})) (store : Store)
    → Moves Unspent rest
    → let (result, after) = (paying takes costs row rest >> pure success) store in
      IsPaid costs row.node_id store result after
unfolding ◌>>◌ ◌>>=◌ and_then pure modify call IsPaid
paying-IsPaid (raised error) costs row rest store keeps = inl (Unspent-Frame.reflexive store, refl)
paying-IsPaid (ok done) (raised error) row rest store keeps =
    inr (inr (added-Recorded row store, (error, refl, refl)))
paying-IsPaid (ok done) (ok paid) row rest store keeps =
    let spends = paid-Spent row rest store keeps in
    let opened = set_nodes (spend_recovery_attempt row.node_id) (add_recovery row store) in
    elim (Result-cases (rest opened).0) [
      | inl (ended, ends) ↦ rw ends (inr (inl (spends, refl)))
      | inr (error, fails) ↦ rw fails (inr (inl (spends, refl)))
    ]

module _ (world : World) (spec : DagSpec) (graph : Graph) (command : RecoverCommand) (node : Node)
    (session : AgentSession) where
  -- What follows the two statements.
  abbrev conclude : M (Unit {0})
  conclude =
      wait_for world spec graph command node (world.now 1)
      >> (leave_to_human world command node
          >> say (
              Labels.recovery_recorded node.id (cause_value command.cause)
                (shown_bool command.recoverable)
                (world.show_time (or_time command.recover_at (world.now 1)))))

  conclude-Unspent : Moves Unspent conclude
  unfolding say
  conclude-Unspent =
      then-Moves Unspent (wait_for world spec graph command node (world.now 1)) _
        (wait_for-Unspent world spec graph command node (world.now 1))
        (then-Moves Unspent (leave_to_human world command node) _
          (leave_to_human-Unspent world spec graph command node) (perform-Unspent _))

  record_recovery-IsPaid :
      (store : Store)
      → let (result, after) =
          (record_recovery world spec graph command node session >> pure success) store in
        IsPaid world.commit_attempt node.id store result after
  unfolding record_recovery recovery_row
  record_recovery-IsPaid store =
      paying-IsPaid world.commit_recovery world.commit_attempt
        (recovery_row world command node session) conclude store conclude-Unspent

abbrev Paid : Result (Unit {0}) → String → Store → M ExitCode → Store → Type 0
Paid commits node_id store action after =
    IsPaid commits node_id store (action after).0 (action after).1

unless-Paid :
    (commits : Result (Unit {0})) (node_id : String) (store : Store) (guard : Bool) (step : M Bool)
    (rest : M ExitCode)
    → Moves Unspent step
    → ((after : Store) → Unspent store after → Paid commits node_id store rest after)
    → (after : Store) → Unspent store after
    → Paid commits node_id store (unless guard step rest) after
unfolding unless ◌>>=◌ and_then pure IsPaid
unless-Paid commits node_id store false step rest moves pays after same = pays after same
unless-Paid commits node_id store true step rest moves pays after same =
    let kept = Unspent-Frame.transitive store after (step after).1 same (moves after) in
    elim (Result-cases (step after).0) [
      | inr (error, fails) ↦ rw fails (inl (kept, refl))
      | inl (done, ends) ↦ elim (Bool-cases done) [
        | inl goes ↦ rw (ends, goes) (pays (step after).1 kept)
        | inr stops ↦ rw (ends, stops) (inl (kept, refl))
      ]
    ]

refusal-Paid :
    (commits : Result (Unit {0})) (node_id text : String) (store : Store)
    → Paid commits node_id store (say text >> pure failure) store
unfolding say ◌>>◌ ◌>>=◌ and_then perform pure IsPaid Unspent allowance
refusal-Paid commits node_id text store = inl ((refl, λ id. refl), refl)

IsPaid-before :
    (commits : Result (Unit {0})) (node_id : String) (store after : Store)
    (result : Result ExitCode) (last : Store)
    → Unspent store after
    → IsPaid commits node_id after result last
    → IsPaid commits node_id store result last
unfolding IsPaid Spent Recorded Unspent
IsPaid-before commits node_id store after result last (kept, left) (inl ((same, rest), refused)) =
    inl ((same ∙ kept, λ id. rest id ∙ left id), refused)
IsPaid-before commits node_id store after result last (kept, left)
      (inr (inl (((row, named, recorded), costs), taken))) =
    inr (
      inl (
        (
          (row, named, recorded ∙ ap (λ rows. rows ++ row ∷ []) kept),
          λ id.
              costs id
              ∙ ap (λ allowed_now. if node_id == id then spent allowed_now else allowed_now)
                  (left id),
        ),
        taken,
      ))
IsPaid-before commits node_id store after result last (kept, left)
      (inr (inr (((row, named, recorded), same), raises))) =
    inr (
      inr (
        ((row, named, recorded ∙ ap (λ rows. rows ++ row ∷ []) kept), λ id. same id ∙ left id),
        raises,
      ))

module _ (world : World) (spec : DagSpec) (graph : Graph) (command : RecoverCommand) where
  recover_node-Paid :
      (node : Node) (agent : Option NodeAgent) (session : AgentSession) (store : Store)
      → Paid world.commit_attempt node.id store
          (recover_node world spec graph command node agent session)
          store
  unfolding recover_node
  recover_node-Paid node agent session store =
      let record_it : M ExitCode =
        record_recovery world spec graph command node session >> pure success in
      let wake_it : M ExitCode =
        unless (not (command.wake_message == ""))
          (wake_node world spec graph command node agent session) record_it in
      let restore_it : M ExitCode =
        unless command.restore_marks (restore_marks world node agent session) wake_it in
      unless-Paid world.commit_attempt node.id store (not command.recoverable)
        (can_record_unrecoverable world node session) restore_it
        (can_record_unrecoverable-Unspent world node session)
        (unless-Paid world.commit_attempt node.id store command.restore_marks
          (restore_marks world node agent session) wake_it
          (restore_marks-Unspent world node agent session)
          (unless-Paid world.commit_attempt node.id store (not (command.wake_message == ""))
            (wake_node world spec graph command node agent session) record_it
            (wake_node-Unspent world spec graph command node agent session)
            λ after kept.
              IsPaid-before world.commit_attempt node.id store after _ _ kept
                (record_recovery-IsPaid world spec graph command node session after)))
        store (Unspent-Frame.reflexive store)

  -- What follows once the node is found.
  decide : Node → M ExitCode
  decide node = do
    agent ← query (λ store. get_by_node_id node.id store.agents)
    on_option (latest_session agent) (say (Labels.node_has_no_session node.id) >> pure failure)
        (recover_node world spec graph command node agent)

  decide-Paid :
      (node : Node) (store : Store) → Paid world.commit_attempt node.id store (decide node) store
  unfolding decide ◌>>=◌ and_then query on_option
  decide-Paid node store =
      elim (Option-cases (latest_session (get_by_node_id node.id store.agents))) [
        | inl missing ↦
            rw missing
              (refusal-Paid world.commit_attempt node.id (Labels.node_has_no_session node.id) store)
        | inr (session, found) ↦
            rw found (recover_node-Paid node (get_by_node_id node.id store.agents) session store)
      ]

  -- A decision of the recovery agent on a node that succeeds adds one recovery of that node and
  -- takes one of its attempts; one that fails adds none and takes none; and one that raises does
  -- both or neither, or adds the recovery alone, where the exception is the one that the database
  -- raised for the attempt. No attempt is taken without its recovery, and none of another node.
  pub recover-IsPaid :
      (store : Store)
      → let (result, after) = recover world spec graph command store in
        IsPaid world.commit_attempt command.node_id store result after
  unfolding recover ◌>>=◌ and_then query on_option decide
  recover-IsPaid store = elim (Option-cases (read_node command.node_id store.nodes)) [
    | inl missing ↦ rw missing (
        refusal-Paid world.commit_attempt command.node_id (Labels.node_not_in_run command.node_id)
          store)
    | inr (node, found) ↦ rw found (
        subst (λ id. Paid world.commit_attempt id store (decide node) store)
          (read_node-id command.node_id store.nodes node found) (decide-Paid node store))
  ]
