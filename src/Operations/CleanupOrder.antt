-- ===== src/Operations/CleanupOrder.antt =====
-- The order in which the chains of linux-exit are taken down.
use netflix_pbrd.Base.{
  ◌≡◌, refl, Bool, true, false, ◌&&◌, ◌||◌, List, [], ◌∷◌, ◌++◌, Text, ◌>>◌, Keeps, Keeps->>, pure,
  fail, when, catch, then_io, Result, ok, err, Error, Option, none, some, codes, if◌then◌else◌,
  arith,
}
use netflix_pbrd.Text.Words.{words}
use netflix_pbrd.Text.{text_eq, contains_text}
use netflix_pbrd.Networks.{equal}
use netflix_pbrd.Networks.Files.{equal_refl}
use netflix_pbrd.Config.{ApplyConfig}
use netflix_pbrd.Runner.{Runner}
use netflix_pbrd.Drivers.Exit.{with_chain, nat_chain_of}
use netflix_pbrd.Drivers.Journal.{Outcome, Leads, Leads->>}
use netflix_pbrd.Drivers.Ordering.{
  Ordered, Prepared, IsOrderly, Outcome-IsOrderly, any-Prepared, first-Prepared, quiet-Ordered,
}
use netflix_pbrd.Operations.Machine.{Machine}
use netflix_pbrd.Dns.{to_lower}
use netflix_pbrd.Operations.Cleanup.{
  undo, cleanup_probe, probed, run_list, is_missing_error, cleanup_linux_exit,
  cleanup_linux_exit_with,
}
use netflix_pbrd.Operations.Kept.{undo-Keeps}

-- A command of the journal of a cleanup, and how it failed if it did.
pub record Answer : Type 0 where
  pub name : Text
  pub args : List Text
  pub failure : Option Error

abbrev pub Answers : Type 0
Answers = List Answer

abbrev pub failure_of : {A : Type 0} → Result A → Option Error
failure_of (ok a) = none
failure_of (err e) = some e

abbrev pub noted :
    {W A : Type 0} → Text → List Text → Answers → W × Result A → (Answers × W) × Result A
noted name args answers (w, r) =
    (((record { name = name; args = args; failure = failure_of r }) ∷ answers, w), r)

abbrev kept_answers : {W A : Type 0} → Answers → W × Result A → (Answers × W) × Result A
kept_answers answers (w, r) = ((answers, w), r)

abbrev pub answering : {W : Type 0} → Runner W → Runner (Answers × W)
answering runner = record {
  run = λ name args s. noted name args s.0 (runner.run name args s.1);
  run_input = λ input name args s. noted name args s.0 (runner.run_input input name args s.1);
  output = λ name args s. noted name args s.0 (runner.output name args s.1);
  look_path = λ name s. kept_answers s.0 (runner.look_path name s.1);
  exists = λ path s. runner.exists path s.1;
}

-- The chain is flushed or deleted.
abbrev pub is_chain_removal : Text → Answer → Bool
is_chain_removal chain e =
    equal e.args (words "-F" ++ (chain ∷ [])) || equal e.args (words "-X" ++ (chain ∷ []))

abbrev succeeded : Option Error → Bool
succeeded none = true
succeeded (some e) = false

module _ {W : Type 0} (m : Machine (Answers × W)) (runner : Runner W) where
  -- The machine with its commands behind the journal.
  abbrev pub with_answers : Machine (Answers × W)
  with_answers = record m { runner = answering runner }

  -- A failure whose message says that the thing is not there: it has one of these parts, whatever the
  -- case of its letters.
  abbrev says_missing : Option Error → Bool
  says_missing none = false
  says_missing (some e) =
      let message = to_lower m.unicode_lower (m.error_text e) in
      contains_text message (codes "bad rule")
      || (contains_text message (codes "no chain")
          || (contains_text message (codes "does not exist")
              || (contains_text message (codes "no such file")
                  || (contains_text message (codes "entry not found")
                      || (contains_text message (codes "cannot find rule")
                          || contains_text message (codes "cannot find device"))))))

  -- The hook is deleted, or was looked for and the answer said that it is not there.
  abbrev pub is_unhooked : Text → Answer → Bool
  is_unhooked chain e =
      (succeeded e.failure && equal e.args (words "-D FORWARD -j" ++ (chain ∷ [])))
      || (says_missing e.failure && equal e.args (words "-C FORWARD -j" ++ (chain ∷ [])))

  is_missing_error-says_missing :
      (e : Error) → is_missing_error with_answers e ≡ true → says_missing (some e) ≡ true
  unfolding is_missing_error
  is_missing_error-says_missing e h = ground arith

  module _ (chain : Text) where
    abbrev O : Answers → Type 0
    O = Ordered (is_chain_removal chain) (is_unhooked chain)

    abbrev P : Answers → Type 0
    P = Prepared (is_chain_removal chain) (is_unhooked chain)

    abbrev unhook : Answers × W → (Answers × W) × Result (Unit {0})
    unhook =
        undo with_answers (codes "iptables") (words "-C FORWARD -j" ++ (chain ∷ []))
          ((words "-D FORWARD -j" ++ (chain ∷ [])) ∷ [])

    abbrev probe_args : List Text
    probe_args = words "-C FORWARD -j" ++ (chain ∷ [])

    abbrev delete_args : List Text
    delete_args = words "-D FORWARD -j" ++ (chain ∷ [])

    abbrev entry : List Text → Option Error → Answer
    entry args failure = record { name = codes "iptables"; args = args; failure = failure }

    probe-quiet : (f : Option Error) → is_chain_removal chain (entry probe_args f) ≡ false
    unfolding equal text_eq words
    probe-quiet f = refl

    delete-quiet : (f : Option Error) → is_chain_removal chain (entry delete_args f) ≡ false
    unfolding equal text_eq words
    delete-quiet f = refl

    probe-first :
        (e : Error)
        → is_missing_error with_answers e ≡ true
        → is_unhooked chain (entry probe_args (some e)) ≡ true
    probe-first e h = rw (is_missing_error-says_missing e h, equal_refl probe_args) refl

    delete-first : is_unhooked chain (entry delete_args none) ≡ true
    delete-first = ground (arith, equal_refl delete_args)

    gone-Prepared :
        (journal : Answers) (e : Error)
        → is_missing_error with_answers e ≡ true
        → O journal
        → P (entry probe_args (some e) ∷ journal)
    gone-Prepared journal e missing h =
        first-Prepared (is_chain_removal chain) (is_unhooked chain) (entry probe_args (some e))
          journal (probe-quiet (some e)) (probe-first e missing) h

    deleted :
        (journal : Answers) (r : W × Result (Unit {0}))
        → O journal
        → Outcome P O (
            then_io
              (λ _ (s : Answers × W). pure tt s)
              (noted (codes "iptables") delete_args journal r))
    deleted journal (v, ok u) h =
        first-Prepared (is_chain_removal chain) (is_unhooked chain) (entry delete_args none) journal
          (delete-quiet none) delete-first h
    deleted journal (v, err e) h =
        quiet-Ordered (is_chain_removal chain) (is_unhooked chain) (entry delete_args (some e))
          journal (delete-quiet (some e)) h

    unhook-Prepared : (journal : Answers) (w : W) → O journal → Outcome P O (unhook (journal, w))
    unfolding undo cleanup_probe
    unhook-Prepared journal w h = probing (runner.run (codes "iptables") probe_args w)
      where
        missed :
            (b : Bool) (v : W) (e : Error)
            → is_missing_error with_answers e ≡ b
            → Outcome P O (
                then_io
                  (λ present.
                    when present (run_list with_answers (codes "iptables") (delete_args ∷ [])))
                  ((if b then pure false else fail e) (entry probe_args (some e) ∷ journal, v)))
        missed true v e missing = gone-Prepared journal e missing h
        missed false v e missing =
            quiet-Ordered (is_chain_removal chain) (is_unhooked chain) (entry probe_args (some e))
              journal (probe-quiet (some e)) h

        probing :
            (r : W × Result (Unit {0}))
            → Outcome P O (
                then_io
                  (λ present.
                    when present (run_list with_answers (codes "iptables") (delete_args ∷ [])))
                  (then_io (probed with_answers) (
                    catch
                      (λ (s : Answers × W). noted (codes "iptables") probe_args journal r)
                      (journal, w))))
        probing (v, ok u) =
            deleted (entry probe_args none ∷ journal) (runner.run (codes "iptables") delete_args v)
              (quiet-Ordered (is_chain_removal chain) (is_unhooked chain) (entry probe_args none)
                journal (probe-quiet none) h)
        probing (v, err e) = missed (is_missing_error with_answers e) v e refl

    abbrev K : Answers × W → Type 0
    K s = P s.0

    any_kept : (name : Text) (args : List Text) → Keeps K ((answering runner).run name args)
    any_kept name args s h =
        any-Prepared (is_chain_removal chain) (is_unhooked chain)
          (record { name = name; args = args; failure = failure_of (runner.run name args s.1).1 })
          s.0 h

    shown_kept : (name : Text) (args : List Text) → Keeps K ((answering runner).output name args)
    shown_kept name args s h =
        any-Prepared (is_chain_removal chain) (is_unhooked chain)
          (record {
            name = name;
            args = args;
            failure = failure_of (runner.output name args s.1).1;
          })
          s.0 h

    undo_kept :
        (name : Text) (probe : List Text) (commands : List (List Text))
        → Keeps K (undo with_answers name probe commands)
    undo_kept = undo-Keeps with_answers K any_kept shown_kept

    Keeps-Outcome :
        (act : Answers × W → (Answers × W) × Result (Unit {0})) (s : Answers × W)
        → K (act s).0
        → Outcome P O (act s)
    Keeps-Outcome act s h = split (act s) h
      where
        split : (r : (Answers × W) × Result (Unit {0})) → K r.0 → Outcome P O r
        split ((j, v), ok u) h = h
        split ((j, v), err e) h = h.0

    abbrev take_down : Answers × W → (Answers × W) × Result (Unit {0})
    take_down =
        undo with_answers (codes "iptables") (words "-S" ++ (chain ∷ []))
          ((words "-F" ++ (chain ∷ [])) ∷ (words "-X" ++ (chain ∷ [])) ∷ [])
        >> undo with_answers (codes "iptables") (words "-t nat -S" ++ (nat_chain_of chain ∷ [])) (
            (words "-t nat -F" ++ (nat_chain_of chain ∷ []))
            ∷ (words "-t nat -X" ++ (nat_chain_of chain ∷ []))
            ∷ [])

    abbrev behind_hook : Answers × W → (Answers × W) × Result (Unit {0})
    behind_hook =
        undo with_answers (codes "iptables")
          (words "-t nat -C POSTROUTING -j" ++ (nat_chain_of chain ∷ []))
          ((words "-t nat -D POSTROUTING -j" ++ (nat_chain_of chain ∷ [])) ∷ [])
        >> take_down

    behind_hook-Prepared : Leads P P O behind_hook
    behind_hook-Prepared j w h =
        Keeps-Outcome behind_hook (j, w)
          (Keeps->> K (undo with_answers (codes "iptables") _ _) take_down
            (undo_kept (codes "iptables") _ _)
            (Keeps->> K (undo with_answers (codes "iptables") _ _)
              (undo with_answers (codes "iptables") _ _) (undo_kept (codes "iptables") _ _)
              (undo_kept (codes "iptables") _ _))
            (j, w) h)

    cleanup_linux_exit_with-Prepared : Leads O P O (cleanup_linux_exit_with with_answers chain)
    unfolding cleanup_linux_exit_with
    cleanup_linux_exit_with-Prepared =
        Leads->> O P P O unhook behind_hook unhook-Prepared behind_hook-Prepared

  -- Whatever the commands answer, and whether it succeeds or fails, the cleanup of linux-exit flushes
  -- and deletes its filter chain only behind the successful deletion of the hook in FORWARD, or a
  -- probe that failed with a message that it is not there, and it succeeds only with one of the two. A
  -- probe that fails for another reason does not count.
  pub cleanup_linux_exit-IsOrderly :
      (c : ApplyConfig) (w : W)
      → IsOrderly
          (is_chain_removal (with_chain (codes "STREAM_EXIT") c).chain)
          (is_unhooked (with_chain (codes "STREAM_EXIT") c).chain)
          (cleanup_linux_exit with_answers c ([], w))
  unfolding cleanup_linux_exit
  cleanup_linux_exit-IsOrderly c w =
      let chain = (with_chain (codes "STREAM_EXIT") c).chain in
      Outcome-IsOrderly (is_chain_removal chain) (is_unhooked chain)
        (cleanup_linux_exit_with with_answers chain ([], w))
        (cleanup_linux_exit_with-Prepared chain [] w refl)
