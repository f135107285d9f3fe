-- ===== src/Wasm/Runner/Laws.antt =====
-- What a Runner has compiled, and calls of Instantiate side by side.
use wpoven_nobot.Base.{
  text_equality, nat_equality, Bool-cases, All, Text, text_eq, text_eq_iff, ◌==◌, insert, ◌≡◌, refl,
  inl, inr, Option, none, some, List, [], ◌∷◌, ascii,
}
use wpoven_nobot.Wasm.Runner.{
  Signature, Module, Runner, InterfaceCheck, follows, mismatched, missing_export, Wanted, wanted,
  check_function, check_interface, registered, compile,
}

-- A module exports a function with these types.
abbrev pub Exports : Module → Wanted → Type 0
Exports m (name, want) =
    (f : Signature) × (m.functions name ≡ some f)
    × (f.param_types ≡ want.param_types)
    × (f.result_types ≡ want.result_types)

-- The interface that challenges are called by: each function that it names, with the codes 127 and 126
-- of WebAssembly for numbers of 32 and 64 bits.
abbrev pub FollowsInterface : Module → Type 0
FollowsInterface m =
    Exports m (ascii "MakeChallenge", record { param_types = 126 ∷ []; result_types = 126 ∷ [] })
    × Exports m
        (ascii "VerifyChallenge", record { param_types = 126 ∷ []; result_types = 126 ∷ [] })
    × Exports m (ascii "malloc", record { param_types = 127 ∷ []; result_types = 127 ∷ [] })
    × Exports m (ascii "free", record { param_types = 127 ∷ []; result_types = [] })

-- Every module that Instantiate can find follows the interface.
abbrev pub IsRunnable : Runner → Type 0
IsRunnable r = All (λ e. FollowsInterface e.1) r.modules

abbrev Follows : Option Signature → Signature → InterfaceCheck → Type 0
Follows f want follows =
    (g : Signature) × (f ≡ some g)
    × (g.param_types ≡ want.param_types)
    × (g.result_types ≡ want.result_types)
Follows f want _ = Unit

check_function-Follows :
    (f : Option Signature) (want : Signature) → Follows f want (check_function f want)
unfolding check_function
check_function-Follows none want = tt
check_function-Follows (some f) want = elim (Bool-cases (text_eq f.param_types want.param_types)) [
  | inr e ↦ rw e tt
  | inl e ↦ elim (Bool-cases (text_eq f.result_types want.result_types)) [
    | inr k ↦ rw (e, k) tt
    | inl k ↦
        rw (e, k)
          (
            f,
            refl,
            (text_eq_iff f.param_types want.param_types).0 e,
            (text_eq_iff f.result_types want.result_types).0 k,
          )
  ]
]

abbrev AllExport : Module → List Wanted → InterfaceCheck → Type 0
AllExport m ws follows = All (Exports m) ws
AllExport m ws _ = Unit

check_interface-AllExport : (m : Module) (ws : List Wanted) → AllExport m ws (check_interface m ws)
unfolding check_interface
check_interface-AllExport m [] = tt
check_interface-AllExport m ((name, want) ∷ more) =
    chained (check_function (m.functions name) want)
      (check_function-Follows (m.functions name) want) (check_interface m more)
      (check_interface-AllExport m more)
  where
    chained :
        (c : InterfaceCheck)
        → Follows (m.functions name) want c
        → (rest : InterfaceCheck) → AllExport m more rest
        → AllExport m ((name, want) ∷ more) (elim c as (λ x. InterfaceCheck) [
          | follows ↦ rest
          | mismatched ↦ mismatched
          | missing_export ↦ missing_export
        ])
    chained follows f follows h = (f, h)
    chained follows f mismatched h = tt
    chained follows f missing_export h = tt
    chained mismatched f rest h = tt
    chained missing_export f rest h = tt

insert-All :
    (P : Text × Module → Type 0) (key : Text) (m : Module) (ms : List (Text × Module))
    → P (key, m)
    → All P ms
    → All P (insert key m ms)
insert-All P key m [] p h = (p, tt)
insert-All P key m ((k, x) ∷ ms) p (h, hs) = elim (Bool-cases (k == key)) [
  | inl e ↦ rw e (p, hs)
  | inr e ↦ rw e (h, insert-All P key m ms p hs)
]

-- Whatever is compiled, every module that Instantiate can find afterwards exports MakeChallenge and
-- VerifyChallenge, from 64 bits to 64 bits, malloc, from 32 bits to 32 bits, and free, from 32 bits to
-- nothing, if every module that it could find before did.
pub compile-IsRunnable :
    (compiled : Option Module) (key : Text) (r : Runner)
    → IsRunnable r
    → IsRunnable (compile compiled key r).1
unfolding compile
compile-IsRunnable none key r h = h
compile-IsRunnable (some m) key r h =
    added (check_interface m wanted) (check_interface-AllExport m wanted)
  where
    added : (c : InterfaceCheck) → AllExport m wanted c → IsRunnable (registered key m c r).1
    added follows (make, (verify, (malloc, (free, _)))) =
        insert-All (λ e. FollowsInterface e.1) key m r.modules (make, verify, malloc, free) h
    added mismatched f = h
    added missing_export f = h
