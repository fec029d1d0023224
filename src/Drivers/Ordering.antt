-- ===== src/Drivers/Ordering.antt =====
-- In which order the drivers act: the hooks that divert traffic into a chain come behind the rules
-- of the chain.
use netflix_pbrd.Base.{
  ◌≡◌, refl, Bool, true, false, not, ◌&&◌, ◌||◌, List, [], ◌∷◌, ◌++◌, Text, Result, ok, err, codes,
  if◌then◌else◌, arith, when, ◌>>=◌, fail, catch, text, then_io,
}
use netflix_pbrd.Text.{text_eq}
use netflix_pbrd.Text.Words.{words}
use netflix_pbrd.Networks.{equal}
use netflix_pbrd.Config.{ApplyConfig}
use netflix_pbrd.Runner.{Runner}
use netflix_pbrd.Drivers.Commands.{
  is_success, succeeds, restore_iptables, restore_with, ensure_chain, table_args,
}
use netflix_pbrd.Drivers.Exit.{nat_chain_of}
use netflix_pbrd.Drivers.Journal.{
  Entry, Journal, journaled, unwritten, Outcome, Leads, Leads->>=, Leads-when, Leads-run,
  Leads-run_input, Leads-output, Leads-succeeds,
}

abbrev pub some_entry : {E : Type 0} → (E → Bool) → List E → Bool
some_entry test [] = false
some_entry test (e ∷ older) = test e || some_entry test older

-- Each entry of one kind has an older entry of the other kind.
abbrev pub is_ordered : {E : Type 0} → (E → Bool) → (E → Bool) → List E → Bool
is_ordered later first [] = true
is_ordered later first (e ∷ older) =
    (not (later e) || some_entry first older) && is_ordered later first older

module _ {E : Type 0} (later first : E → Bool) where
  abbrev pub Ordered : List E → Type 0
  Ordered journal = is_ordered later first journal ≡ true

  -- Ordered, and an entry of the first kind is there.
  abbrev pub Prepared : List E → Type 0
  Prepared journal = (is_ordered later first journal ≡ true) × (some_entry first journal ≡ true)

  pub quiet-Ordered : (e : E) (j : List E) → later e ≡ false → Ordered j → Ordered (e ∷ j)
  quiet-Ordered e j q h = ground arith

  pub any-Prepared : (e : E) (j : List E) → Prepared j → Prepared (e ∷ j)
  any-Prepared e j h = ground arith

  pub first-Prepared :
      (e : E) (j : List E) → later e ≡ false → first e ≡ true → Ordered j → Prepared (e ∷ j)
  first-Prepared e j q f h = ground arith

-- A run that leaves an ordered journal, with an entry of the first kind in it if it succeeds.
abbrev pub IsOrderly : {E W A : Type 0} → (E → Bool) → (E → Bool) → (List E × W) × Result A → Type 0
IsOrderly later first r =
    (is_ordered later first r.0.0 ≡ true)
    × ((not (is_success r.1) || some_entry first r.0.0) ≡ true)

pub Outcome-IsOrderly :
    {E W A : Type 0} (later first : E → Bool) (r : (List E × W) × Result A)
    → Outcome (Prepared later first) (Ordered later first) r
    → IsOrderly later first r
Outcome-IsOrderly later first ((j, w), ok a) h = h
Outcome-IsOrderly later first ((j, w), err e) h = (h, refl)

-- A restore of rules that succeeded.
abbrev pub is_restore : Text → Entry → Bool
is_restore input e = e.succeeded && text_eq e.input input

abbrev pub is_filter_hook : Text → Entry → Bool
is_filter_hook chain e = equal e.args (words "-I FORWARD 1 -j" ++ (chain ∷ []))

abbrev pub is_nat_hook : Text → Entry → Bool
is_nat_hook chain e = equal e.args (words "-t nat -I POSTROUTING 1 -j" ++ (chain ∷ []))

abbrev pub is_exit_hook : ApplyConfig → Entry → Bool
is_exit_hook c e = is_filter_hook c.chain e || is_nat_hook (nat_chain_of c.chain) e

-- The helpers that several drivers use, in a driver whose hooks are of one kind.
module _ {W : Type 0} (runner : Runner W) (later first : Entry → Bool) where
  abbrev pub Quiet : Text → List Text → Text → Type 0
  Quiet name args input =
      (b : Bool) → later (record { name = name; args = args; input = input; succeeded = b }) ≡ false

  pub run-Ordered :
      (name : Text) (args : List Text)
      → Quiet name args []
      → Leads
          (Ordered later first)
          (Ordered later first)
          (Ordered later first)
          ((journaled runner).run name args)
  run-Ordered name args q =
      Leads-run runner (Ordered later first) (Ordered later first) (Ordered later first) name args
        (λ j h. quiet-Ordered later first _ j (q true) h)
        (λ j h. quiet-Ordered later first _ j (q false) h)

  pub run_input-Ordered :
      (input name : Text) (args : List Text)
      → Quiet name args input
      → Leads
          (Ordered later first)
          (Ordered later first)
          (Ordered later first)
          ((journaled runner).run_input input name args)
  run_input-Ordered input name args q =
      Leads-run_input runner (Ordered later first) (Ordered later first) (Ordered later first) input
        name args (λ j h. quiet-Ordered later first _ j (q true) h)
        (λ j h. quiet-Ordered later first _ j (q false) h)

  pub output-Ordered :
      (name : Text) (args : List Text)
      → Quiet name args []
      → Leads
          (Ordered later first)
          (Ordered later first)
          (Ordered later first)
          ((journaled runner).output name args)
  output-Ordered name args q =
      Leads-output runner (Ordered later first) (Ordered later first) (Ordered later first) name
        args (λ j h. quiet-Ordered later first _ j (q true) h)
        (λ j h. quiet-Ordered later first _ j (q false) h)

  pub succeeds-Ordered :
      (name : Text) (args : List Text)
      → Quiet name args []
      → Leads
          (Ordered later first)
          (Ordered later first)
          (Ordered later first)
          (succeeds (journaled runner) name args)
  succeeds-Ordered name args q =
      Leads-succeeds runner (Ordered later first) (Ordered later first) name args
        (λ j b h. quiet-Ordered later first _ j (q b) h)

  pub ensure_chain-Ordered :
      (table chain : Text)
      → Quiet (codes "iptables") (table_args table ++ (codes "-S" ∷ chain ∷ [])) []
      → Quiet (codes "iptables") (table_args table ++ (codes "-N" ∷ chain ∷ [])) []
      → Leads
          (Ordered later first)
          (Ordered later first)
          (Ordered later first)
          (ensure_chain (journaled runner) table chain)
  unfolding ensure_chain
  ensure_chain-Ordered table chain s n =
      Leads->>= (Ordered later first) (Ordered later first) (Ordered later first)
        (Ordered later first)
        (succeeds (journaled runner) (codes "iptables")
          (table_args table ++ (codes "-S" ∷ chain ∷ [])))
        (λ present. when (not present) (
          (journaled runner).run (codes "iptables")
            (table_args table ++ (codes "-N" ∷ chain ∷ []))))
        (succeeds-Ordered (codes "iptables") (table_args table ++ (codes "-S" ∷ chain ∷ [])) s)
        (λ present.
          Leads-when (Ordered later first) (Ordered later first) (not present) _
            (run-Ordered (codes "iptables") (table_args table ++ (codes "-N" ∷ chain ∷ [])) n))

  -- A restore is of the first kind if it succeeds.
  pub restore_iptables-Prepared :
      (input : Text)
      → ((name : Text) → Quiet name (codes "--noflush" ∷ []) input)
      → ((name : Text) → Quiet name (codes "iptables-restore" ∷ codes "--noflush" ∷ []) input)
      → ((name : Text) (args : List Text)
          → first (record { name = name; args = args; input = input; succeeded = true }) ≡ true)
      → Leads
          (Ordered later first)
          (Prepared later first)
          (Ordered later first)
          (restore_iptables (journaled runner) input)
  unfolding restore_iptables
  restore_iptables-Prepared input q x f journal w h =
      found (runner.look_path (codes "iptables-restore") w)
    where
      feed :
          (name : Text) (args : List Text)
          → Quiet name args input
          → Leads
              (Ordered later first)
              (Prepared later first)
              (Ordered later first)
              ((journaled runner).run_input input name args)
      feed name args quiet =
          Leads-run_input runner (Ordered later first) (Prepared later first) (Ordered later first)
            input name args (λ j k. first-Prepared later first _ j (quiet true) (f name args) k)
            (λ j k. quiet-Ordered later first _ j (quiet false) k)

      fallback :
          (v : W) (there : Bool)
          → Outcome (Prepared later first) (Ordered later first) (
              if there
              then (journaled runner).run_input input
                  (codes "/system/bin/xtables-multi")
                  (codes "iptables-restore" ∷ codes "--noflush" ∷ [])
                  (journal, v)
              else fail (text (codes "iptables-restore not found")) (journal, v))
      fallback v true =
          feed (codes "/system/bin/xtables-multi")
            (codes "iptables-restore" ∷ codes "--noflush" ∷ [])
            (x (codes "/system/bin/xtables-multi")) journal v h
      fallback v false = h

      found :
          (r : W × Result Text)
          → Outcome (Prepared later first) (Ordered later first) (
              then_io
                (restore_with (journaled runner) input)
                (catch (λ (s : Journal × W). unwritten journal r) (journal, w)))
      found (v, ok path) = feed path (codes "--noflush" ∷ []) (q path) journal v h
      found (v, err e) = fallback v (runner.exists (codes "/system/bin/xtables-multi") v)

  -- A hook, once the rules are restored.
  pub hook-Prepared :
      (probe insert : List Text)
      → Leads (Prepared later first) (Prepared later first) (Ordered later first) (
          succeeds (journaled runner) (codes "iptables") probe >>= λ hooked.
          when (not hooked) ((journaled runner).run (codes "iptables") insert))
  hook-Prepared probe insert =
      Leads->>= (Prepared later first) (Prepared later first) (Prepared later first)
        (Ordered later first) (succeeds (journaled runner) (codes "iptables") probe)
        (λ hooked. when (not hooked) ((journaled runner).run (codes "iptables") insert))
        (Leads-succeeds runner (Prepared later first) (Ordered later first) (codes "iptables") probe
          (λ j b h. any-Prepared later first _ j h))
        (λ hooked. inserting (not hooked))
    where
      inserting :
          (b : Bool)
          → Leads
              (Prepared later first)
              (Prepared later first)
              (Ordered later first)
              (when b ((journaled runner).run (codes "iptables") insert))
      inserting true j w h =
          Leads-run runner (Prepared later first) (Prepared later first) (Ordered later first)
            (codes "iptables") insert (λ j h. any-Prepared later first _ j h)
            (λ j h. (any-Prepared later first _ j h).0) j w h
      inserting false j w h = h
