-- ===== src/Lib.antt =====
-- lfi-verifier reads the machine code of a program and decides whether it stays in its sandbox, so
-- that it can be run next to trusted code. This library models the verifiers for x86-64 and arm64
-- and states what code they accept.
--
-- Parts of the program, and where they are modelled:
--
--   src/include/lfiv.h       Options.antt     the options: sandbox type, no_bdd, ctxreg, err.
--   src/x64/verify.c         X64/State.antt   struct Verifier, verr and verrmin.
--                            X64/Check.antt   nmod, reserved, branchinfo, okmnem, chkmem, chkmod,
--                                             chkbranch.
--                            X64/Verify.antt  vchkbundle and lfiv_verify_x64.
--   src/x64/macroinst.c      X64/Macro.antt   the eight macros and macroinst; X64/Macro/Parts.antt their
--                                             tests on single instructions.
--   src/x64/base.instrs      X64/Mnemonics.antt
--   src/x64/bdd.c            X64/Bdd.antt     lookup and lfi_x86_bdd, over any table.
--   src/arm64/verify.c       Arm64/State.antt struct Verifier, verr and verrmin.
--                            Arm64/Regs.antt  the tests on registers, operands and mnemonics.
--                            Arm64/Check.antt chkbranch, chksys, chkmemops, okmod, chkwriteback.
--                            Arm64/Verify.antt vchk and lfiv_verify_arm64.
--   src/arm64/*.instrs       Arm64/Mnemonics.antt and Arm64/Loads.antt
--   src/include/lfiv.h       Dispatch.antt    struct LFIVerifier and lfiv_verify, with the stub of
--                                             src/riscv64/verify.c.
--   tools/lfi-verify/main.c  Tool/World.antt  the process: what is printed, open and asked of the system.
--                            Tool/Verify.antt verify; Tool/Elf.antt the structs that it reads.
--                            Tool/Args.antt   archname, usage and the loop over the options.
--                            Tool/Main.antt   main.
--
-- How the parts interact. lfiv_verify_x64 runs a filter first, unless no_bdd is set: lfi_x86_bdd
-- gives the length of each instruction, and 0 refuses it. Then it cuts the code into bundles of 32
-- bytes and calls vchkbundle on each; vchkbundle decodes an instruction, asks macroinst whether a
-- known sequence starts there, and otherwise calls the four checks. lfiv_verify_arm64 calls vchk on
-- each word. A check that fails calls verr, which sets `failed` and calls the err callback. The
-- tool lfi-verify reads an ELF file, sets the verifier for its machine and calls it, by
-- lfiv_verify, on each executable segment.
--
-- Correspondence. A function of the C is a function of the same name; where it has a long body, its
-- loops and cases are definitions of their own next to it. A check takes the verifier's state and
-- returns the new one. A buffer is the list of its bytes, and a pointer into it is what `drop`
-- leaves; numbers are natural numbers, with the wrap of 64-bit addresses written out (`add64`), and
-- a signed displacement is its two's complement pattern. An enumerator of a decoder's header is its
-- name. The calls of the err callback are a log, `reports`. A failing assert of the arm64 verifier
-- is `none`; that of lfiv_verify_x64 is the outcome `assert_failed`; lfiv_verify gives an Answer,
-- which is `assertion` for both. A function of the tool is a step from a World to a result and a
-- World, or a stop: `goto err`, the `return false` behind a failed verification, exit (which a
-- `return 1` from main is too) or a failed assert. The structs of an ELF file are read as a
-- little-endian host lays them out. A printed line is its format with the strings for it.
--
-- Parameters. The decoders fadec and disarm are not in the repository. `Decoder` and `Disarm` stand
-- for them, and the filter of lfiv_verify_x64 is any function. `DecodeLaws` says that a decoded
-- instruction has 1 to 15 bytes, all of them in the buffer; `DisarmLaws` says in which form the
-- operands of branches and system instructions are decoded and which instructions the group of
-- branches through a register has. `LengthLaw` says that a length that the filter gives is the one
-- of the decoder. `MachineLaws` and `NoPrefix` say what the theorem on macros needs of the decoder
-- and of the code, and `IsOr` what or does to words that share no bit. The test modules have
-- decoders of a few real encodings that meet the laws. `Env` has what the tool asks of its system:
-- which architectures are built in, the verifiers that are linked in, fopen, malloc, clock_gettime,
-- atoi and getopt_long. `IsReliable` says of it that malloc and clock_gettime succeed and no assert
-- of a verifier fails; `IsLinked` that the verifiers are those of this repository and that files
-- are made of bytes.
--
-- Policies. X64/Policy.antt and Arm64/Policy.antt say, without the verifier's state and order of
-- tests, what an instruction may do; X64/Layout.antt how units fill bundles, X64/Control.antt how
-- control moves between them. A macro is allowed as macroinst recognises it, and X64/Confined.antt
-- says what it does to a machine: X64/Machine.antt has the registers and what the x86-64
-- architecture computes by the instructions of macros. Arm64/Address.antt has what the arm64
-- architecture computes from a memory operand and from the guard instruction. What else
-- instructions do to a machine is not said, nor what string instructions and the two architectures'
-- segments add to an address. Tool/Policy.antt says which files are to be accepted (`IsVerified`),
-- without the order of reads and tests.
--
-- Proofs. X64/Safety and Arm64/Safety hold the proofs, a module for each check (Memory, Registers
-- or Writes, Branches, System, Macros), then for one instruction (Single, Unit, Insn), for a bundle
-- or the loop (Bundle, Program) and for the entry point (Entry, Total, Control, Cover, Modes,
-- Bounds). Logs and Reports follow the calls of `err`, through the checks and through a run.
-- Passes.antt has the record by which checks are composed: it fails unless its policy holds, and
-- what it keeps. X64/Safety goes on with the effect of macros (Steps and Effects for one
-- instruction, Unreserved, Confined, Strings, Transfers, Sequences), the addresses that chkmem
-- allows (Access), and both for accepted code (Contained), and with what the loops of
-- lfiv_verify_x64 count (Counts) and its assert (Assert). Tool/Safety has the counterpart of that
-- record for steps (Decides), the entries of the tables (Segments), the loops over them (Rounds),
-- the switch on the machine (Select), the whole of verify (File, Entry), the options (Quiet,
-- Options), the inputs (Inputs, Program), the status of main (Exit), the way from it to the code
-- (Fields, Safe) and verify with the verifiers of the repository (Linked); Dispatch/Answers.antt
-- what an answer says of a verifier. The modules Tests and Witnesses run the definitions and apply
-- the theorems to sample code.
--
-- Bounds and fuel. vchk_loop and call_loop have 32 rounds, since each passes at least a byte of a
-- bundle of 32; bundles_loop and bdd_loop have a round for each byte of the code, since each passes
-- at least one or returns. A loop of rounds that ran out would leave the rest of its code
-- unexamined. lookup has fuel, and a table whose variables grow along its edges needs no more than
-- there are variables. The loops of arm64 are by structure; those of the tool count the rounds that
-- are left, none where the int args.n is negative.
--
-- Not modelled: the formatting of messages and their truncation, the diagram as code
-- (src/x64/x86-all.bdd.c, generated), the table's bytes, the rest of
-- tools/lfi-verify/elfdefinitions.h (a third-party header), the time that verify measures, and the
-- C library. `abort` of the arm64 verifier, which nothing sets, is left out. The operands of an
-- arm64 instruction are read apart where the C overlays them in a union.
pub mod Prelude
pub mod Options
pub mod X64
pub mod Arm64
pub mod Dispatch
pub mod Tool
