-- ===== src/Unpacker/Reexec.antt =====
-- base_image_puller/unpacker/tar.go: the process that `Unpack` starts, and what passes between the
-- two. Package `encoding/json` is a parameter.
use groot_btrfs.Base.{◌≡◌, refl, ◌∙◌, ap, List, [], ◌∷◌, ◌++◌, arith}
use groot_btrfs.Base.Str.{Str, codes}
use groot_btrfs.Base.Str.Split.{trim_space}
use groot_btrfs.Base.Commands.{Output}
use groot_btrfs.Base.Effect.{M, ⊤, Error, Result, ok, err, wrap, message, lift, ◌>>=◌}
use groot_btrfs.Puller.{UnpackSpec, UnpackOutput}
use groot_btrfs.Unpacker.{TarUnpacker, unpack}

-- `reexec` runs the program again under a name, with arguments and an input.
pub record Reexec (W Stream : Type 0) : Type 0 where
  pub strategy : Result Str
  pub encode_spec : UnpackSpec Stream → Result Str
  pub decode_spec : Str → Result (UnpackSpec Stream)
  pub decode_strategy : Str → Result ⊤
  pub encode_output : UnpackOutput → Str
  pub decode_output : Str → Result UnpackOutput
  pub reexec : Str → List Str → Stream → W → Output × W

-- The output of a process that prints an error and exits with 1.
abbrev pub failing : Error → Output
failing e = record {
  stdout = message e ++ (10 ∷ []);
  stderr = [];
  combined = message e ++ (10 ∷ []);
  ended = err (Error.new (codes "exit status 1"));
}

abbrev pub printing : Str → Output
printing text = record { stdout = text; stderr = []; combined = text; ended = ok tt }

module _ {W Stream : Type 0} (r : Reexec W Stream) where
  unfoldable pub read_output : Output → Result UnpackOutput
  unfolding trim_space
  read_output output = elim output.ended [
    | err _ ↦ err (Error.new (trim_space output.stdout))
    | ok _ ↦ elim (r.decode_output output.stdout) [
      | err e ↦ err (wrap e (codes "parsing unpack output"))
      | ok out ↦ ok out
    ]
  ]

  unfoldable pub run_unpack : Stream → Str → Str → M W UnpackOutput
  unfolding read_output
  run_unpack stream strategy_json spec_json w =
      let (output, w1) =
        r.reexec (codes "chroot-unpack") (spec_json ∷ strategy_json ∷ []) stream w in
      (read_output output, w1)

  -- `TarUnpacker.Unpack`
  unfoldable pub unpack_in_child : UnpackSpec Stream → M W UnpackOutput
  unfolding run_unpack
  unpack_in_child spec = do
    strategy_json ← lift r.strategy
    spec_json ← lift (r.encode_spec spec)
    run_unpack spec.stream strategy_json spec_json

  unfoldable pub print_output : Result UnpackOutput → Output
  print_output (ok output) = printing (r.encode_output output)
  print_output (err e) = failing e

  -- The process, from what it reads of its arguments; it takes the stream from its input.
  unfoldable pub unpack_decoded :
      {Content File : Type 0}
      → TarUnpacker W Stream Content File
      → Result (UnpackSpec Stream)
      → Result ⊤
      → Stream
      → W
      → Output × W
  unfolding print_output unpack
  unpack_decoded u (err e) _ stdin w = (failing e, w)
  unpack_decoded u (ok spec) (err e) stdin w = (failing e, w)
  unpack_decoded u (ok spec) (ok _) stdin w =
      let (output, w1) = unpack u (record spec { stream = stdin }) w in (print_output output, w1)

  unfoldable pub chroot_unpack :
      {Content File : Type 0}
      → TarUnpacker W Stream Content File
      → Str
      → Str
      → Stream
      → W
      → Output × W
  unfolding unpack_decoded
  chroot_unpack u spec_json strategy_json stdin w =
      unpack_decoded u (r.decode_spec spec_json) (r.decode_strategy strategy_json) stdin w

  -- What the two processes rely on: the program that is run is the one of this file, and what was
  -- encoded is decoded, the stream apart.
  pub record IsReexec {Content File : Type 0} (u : TarUnpacker W Stream Content File) : Type 0 where
    pub reexec_eq :
        (w : W) (spec_json strategy_json : Str) (stream : Stream)
        → r.reexec (codes "chroot-unpack") (spec_json ∷ strategy_json ∷ []) stream w
          ≡ chroot_unpack u spec_json strategy_json stream w
    pub strategy_eq : (text : Str) → r.strategy ≡ ok text → r.decode_strategy text ≡ ok tt
    pub spec_eq :
        (spec : UnpackSpec Stream) (text : Str)
        → r.encode_spec spec ≡ ok text
        → (read : UnpackSpec Stream) × (r.decode_spec text ≡ ok read)
          × (record read { stream = spec.stream } ≡ spec)
    pub output_eq : (output : UnpackOutput) → r.decode_output (r.encode_output output) ≡ ok output

  -- An error of the process, as `Unpack` sees it.
  abbrev pub passed_on : Result UnpackOutput → Result UnpackOutput
  passed_on (ok output) = ok output
  passed_on (err e) = err (Error.new (trim_space (message e ++ (10 ∷ []))))

  module _ {Content File : Type 0} (u : TarUnpacker W Stream Content File) (R : IsReexec u) where
    read_output-print_output :
        (output : Result UnpackOutput) → read_output (print_output output) ≡ passed_on output
    unfolding read_output print_output
    read_output-print_output (ok output) = ground (arith, R.output_eq output)
    read_output-print_output (err e) = refl

    run_unpack_lem :
        (spec read : UnpackSpec Stream) (strategy_json spec_json : Str) (w : W)
        → r.decode_strategy strategy_json ≡ ok tt
        → r.decode_spec spec_json ≡ ok read
        → record read { stream = spec.stream } ≡ spec
        → run_unpack spec.stream strategy_json spec_json w
          ≡ (passed_on (unpack u spec w).0, (unpack u spec w).1)
    unfolding run_unpack chroot_unpack unpack_decoded
    run_unpack_lem spec read strategy_json spec_json w known decoded same =
        let child : r.reexec (codes "chroot-unpack") (spec_json ∷ strategy_json ∷ []) spec.stream w
            ≡ (print_output (unpack u spec w).0, (unpack u spec w).1) =
          R.reexec_eq w spec_json strategy_json spec.stream
          ∙ ap (λ s. unpack_decoded u s (r.decode_strategy strategy_json) spec.stream w) decoded
          ∙ ap (λ k. unpack_decoded u (ok read) k spec.stream w) known
          ∙ ap (λ s. (print_output (unpack u s w).0, (unpack u s w).1)) same in
        ap (λ o. (read_output o.0, o.1)) child
        ∙ ap (λ o. (o, (unpack u spec w).1)) (read_output-print_output (unpack u spec w).0)

    -- With an encoding that is read back: once the strategy and the specification are encoded,
    -- `Unpack` gives what `unpack` gives in the process that it starts, and changes the world as that
    -- does; an error comes as a plain one with the same text, without the white space around it.
    pub unpack_in_child_eq :
        (spec : UnpackSpec Stream) (strategy_json spec_json : Str) (w : W)
        → r.strategy ≡ ok strategy_json
        → r.encode_spec spec ≡ ok spec_json
        → unpack_in_child spec w ≡ (passed_on (unpack u spec w).0, (unpack u spec w).1)
    unfolding unpack_in_child
    unpack_in_child_eq spec strategy_json spec_json w first second =
        let (read, decoded, same) = R.spec_eq spec spec_json second in
        let run : unpack_in_child spec w ≡ run_unpack spec.stream strategy_json spec_json w =
          ground (arith, first, second) in
        run
        ∙ run_unpack_lem spec read strategy_json spec_json w (R.strategy_eq strategy_json first)
            decoded same
