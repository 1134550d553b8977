-- ===== src/Projectctl/Cleanup.antt =====
-- Every command removes the temporary directories that it makes.
use grounded_search.Prelude.{
  Bool, true, false, Option, none, some, List, [], ◌∷◌, ◌++◌, ok, err, ◌≡◌, refl, append_assoc,
  append-nil, ap, sym, ◌∙◌, All, if◌then◌else◌,
}
use grounded_search.Go.Str.{Str, codes, str_eq}
use grounded_search.Go.Errors.{Error, Outcome}
use grounded_search.Projectctl.Commands.{
  Command, Action, printed, executed, created, removed, System, Application, Task, run_command,
  test_go, test_python, contracts, build_in, build_go, build_go_command, integration, steps,
  after_task, run_steps, verify_core, execute, usage, contracts_command, test_go_command,
  test_python_command, integration_command,
}

-- The directories that were made, and those that were removed.
unfoldable pub made : List Action → List Str
made [] = []
made (created d ∷ actions) = d ∷ made actions
made (removed d ∷ actions) = made actions
made (printed text ∷ actions) = made actions
made (executed c ∷ actions) = made actions

unfoldable pub deleted : List Action → List Str
deleted [] = []
deleted (created d ∷ actions) = deleted actions
deleted (removed d ∷ actions) = d ∷ deleted actions
deleted (printed text ∷ actions) = deleted actions
deleted (executed c ∷ actions) = deleted actions

made-append : (a b : List Action) → made (a ++ b) ≡ made a ++ made b
unfolding made
made-append [] b = refl
made-append (created d ∷ a) b = ap (λ r. d ∷ r) (made-append a b)
made-append (removed d ∷ a) b = made-append a b
made-append (printed text ∷ a) b = made-append a b
made-append (executed c ∷ a) b = made-append a b

deleted-append : (a b : List Action) → deleted (a ++ b) ≡ deleted a ++ deleted b
unfolding deleted
deleted-append [] b = refl
deleted-append (created d ∷ a) b = deleted-append a b
deleted-append (removed d ∷ a) b = ap (λ r. d ∷ r) (deleted-append a b)
deleted-append (printed text ∷ a) b = deleted-append a b
deleted-append (executed c ∷ a) b = deleted-append a b

-- Between two moments the same directories were made and removed.
pub record IsTidy (before after : List Action) : Type 0 where
  pub directories : List Str
  pub were_made : made after ≡ made before ++ directories
  pub were_deleted : deleted after ≡ deleted before ++ directories

IsTidy-of_actions :
    (before more : List Action) → made more ≡ deleted more → IsTidy before (before ++ more)
IsTidy-of_actions before more e = record {
  directories = made more;
  were_made = made-append before more;
  were_deleted = deleted-append before more ∙ ap (λ r. deleted before ++ r) (sym e);
}

trans : (a b c : List Action) → IsTidy a b → IsTidy b c → IsTidy a c
trans a b c x y = record {
  directories = x.directories ++ y.directories;
  were_made =
      y.were_made
      ∙ ap (λ r. r ++ y.directories) x.were_made
      ∙ append_assoc (made a) x.directories y.directories;
  were_deleted =
      y.were_deleted
      ∙ ap (λ r. r ++ y.directories) x.were_deleted
      ∙ append_assoc (deleted a) x.directories y.directories;
}

pub none_made : (a : List Action) → IsTidy a a
none_made a = record {
  directories = [];
  were_made = sym (append-nil (made a));
  were_deleted = sym (append-nil (deleted a));
}

abbrev Tidies : Task → Type 0
Tidies task = (actions : List Action) → IsTidy actions (task actions).1

module _ (os : System) where
  -- A process alone makes and removes none.
  run_command-keeps :
      (c : Command) (actions : List Action)
      → (made (run_command os c actions).1 ≡ made actions)
        × (deleted (run_command os c actions).1 ≡ deleted actions)
  unfolding run_command made deleted
  run_command-keeps c actions = (
    made-append (actions ++ (printed _ ∷ [])) (executed c ∷ [])
        ∙ append-nil _
        ∙ made-append actions (printed _ ∷ [])
        ∙ append-nil (made actions),
    deleted-append (actions ++ (printed _ ∷ [])) (executed c ∷ [])
        ∙ append-nil _
        ∙ deleted-append actions (printed _ ∷ [])
        ∙ append-nil (deleted actions),
  )

  run_command-Tidies : (c : Command) → Tidies (run_command os c)
  run_command-Tidies c actions =
      let (m, d) = run_command-keeps c actions in
      record {
        directories = [];
        were_made = m ∙ sym (append-nil (made actions));
        were_deleted = d ∙ sym (append-nil (deleted actions));
      }

  module _ (app : Application) where
    build_in-Tidies : (o : Outcome Str) → Tidies (build_in os app o)
    unfolding build_in made deleted
    build_in-Tidies (err e) actions = none_made actions
    build_in-Tidies (ok d) actions =
        let c = build_go_command os app d in
        let start = actions ++ (created d ∷ []) in
        let (m, r) = run_command-keeps c start in
        record {
          directories = d ∷ [];
          were_made =
              made-append (run_command os c start).1 (removed d ∷ [])
              ∙ append-nil _
              ∙ m
              ∙ made-append actions (created d ∷ []);
          were_deleted =
              deleted-append (run_command os c start).1 (removed d ∷ [])
              ∙ ap (λ l. l ++ (d ∷ []))
                  (r ∙ deleted-append actions (created d ∷ []) ∙ append-nil (deleted actions));
        }

    after_task-IsTidy :
        (name : Str) (start : List Action) (ran : Option Error × List Action) (next : Task)
        → IsTidy start ran.1
        → Tidies next
        → IsTidy start (after_task name ran next).1
    unfolding after_task
    after_task-IsTidy name start (none, done) next h t = trans start done _ h (t done)
    after_task-IsTidy name start (some e, done) next h t = h

    AllTidy : List (Str × Task) → Type 0
    AllTidy tasks = All (λ step. Tidies step.1) tasks

    run_steps-Tidies : (tasks : List (Str × Task)) → AllTidy tasks → Tidies (run_steps os app tasks)
    unfolding run_steps AllTidy made deleted
    run_steps-Tidies [] t actions = IsTidy-of_actions actions (printed _ ∷ []) refl
    run_steps-Tidies ((name, task) ∷ rest) (t, ts) actions =
        let line = printed (codes "\n==> " ++ (name ++ codes "\n")) in
        let note = actions ++ (line ∷ []) in
        after_task-IsTidy name actions (task note) (run_steps os app rest)
          (trans actions note (task note).1 (IsTidy-of_actions actions (line ∷ []) refl) (t note))
          (run_steps-Tidies rest ts)

    verify_core-Tidies : Tidies (verify_core os app)
    unfolding verify_core steps AllTidy contracts test_go test_python build_go integration
    verify_core-Tidies = run_steps-Tidies (steps os app) (
      run_command-Tidies (contracts_command os app),
      (
        run_command-Tidies (test_go_command os app),
        (
          run_command-Tidies (test_python_command os app),
          (build_in-Tidies os.mkdir_temp, (run_command-Tidies (integration_command os app), tt)),
        ),
      ),
    )

    either :
        {a : List Action} (b : Bool) (x y : Option Error × List Action)
        → IsTidy a x.1
        → IsTidy a y.1
        → IsTidy a (if b then x else y).1
    either true x y h k = h
    either false x y h k = k

    help-IsTidy : (actions : List Action) → IsTidy actions (actions ++ (printed usage ∷ []))
    unfolding made deleted
    help-IsTidy actions = IsTidy-of_actions actions (printed usage ∷ []) refl

    -- Whatever the command and however it ends, it has removed exactly the temporary directories that
    -- it made, in the same order.
    pub execute-IsTidy :
        (command : Str) (actions : List Action) → IsTidy actions (execute os app command actions).1
    unfolding execute test_go test_python contracts build_go integration
    execute-IsTidy command actions =
        either (str_eq command (codes "help")) _ _ (help-IsTidy actions) (
          either (str_eq command (codes "-h")) _ _ (help-IsTidy actions) (
            either (str_eq command (codes "--help")) _ _ (help-IsTidy actions) (
              either (str_eq command (codes "test-go")) _ _
                (run_command-Tidies (test_go_command os app) actions)
                (either (str_eq command (codes "test-python")) _ _
                  (run_command-Tidies (test_python_command os app) actions)
                  (either (str_eq command (codes "contracts")) _ _
                    (run_command-Tidies (contracts_command os app) actions)
                    (either (str_eq command (codes "build-go")) _ _
                      (build_in-Tidies os.mkdir_temp actions)
                      (either (str_eq command (codes "integration")) _ _
                        (run_command-Tidies (integration_command os app) actions)
                        (either (str_eq command (codes "verify-core")) _ _
                          (verify_core-Tidies actions) (none_made actions)))))))))
