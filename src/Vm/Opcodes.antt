-- ===== src/Vm/Opcodes.antt =====
-- The opcode bytes and the gas table of internal/vm/vm.go.
use shadowledger.Prelude.{ℕ, ◌==◌, if◌then◌else◌}

-- One constructor for each constant, and `unknown` for every other byte.
pub data Opcode : Type 0 where
  stop push pop : Opcode
  add sub mul div modulo addc subc mulc : Opcode
  eq lt gt iszero and or not : Opcode
  dup swap jump jumpi sload sstore mix : Opcode
  caller value bal cdload self call return revert log : Opcode
  cdlen bstore beq blen bhash callerb selfb returnb : Opcode
  unknown : Opcode

-- The constants, read the other way round: `switch op`.
unfoldable pub decode : ℕ → Opcode
decode op =
    if op == 0x00
    then Opcode.stop
    else if op == 0x01
    then Opcode.push
    else if op == 0x02
    then Opcode.pop
    else if op == 0x10
    then Opcode.add
    else if op == 0x11
    then Opcode.sub
    else if op == 0x12
    then Opcode.mul
    else if op == 0x13
    then Opcode.div
    else if op == 0x14
    then Opcode.modulo
    else if op == 0x15
    then Opcode.addc
    else if op == 0x16
    then Opcode.subc
    else if op == 0x17
    then Opcode.mulc
    else if op == 0x20
    then Opcode.eq
    else if op == 0x21
    then Opcode.lt
    else if op == 0x22
    then Opcode.gt
    else if op == 0x23
    then Opcode.iszero
    else if op == 0x24
    then Opcode.and
    else if op == 0x25
    then Opcode.or
    else if op == 0x26
    then Opcode.not
    else if op == 0x30
    then Opcode.dup
    else if op == 0x31
    then Opcode.swap
    else if op == 0x40
    then Opcode.jump
    else if op == 0x41
    then Opcode.jumpi
    else if op == 0x50
    then Opcode.sload
    else if op == 0x51
    then Opcode.sstore
    else if op == 0x57
    then Opcode.mix
    else if op == 0x60
    then Opcode.caller
    else if op == 0x61
    then Opcode.value
    else if op == 0x62
    then Opcode.bal
    else if op == 0x63
    then Opcode.cdload
    else if op == 0x64
    then Opcode.self
    else if op == 0x71
    then Opcode.call
    else if op == 0x70
    then Opcode.return
    else if op == 0x74
    then Opcode.revert
    else if op == 0x72
    then Opcode.log
    else if op == 0x66
    then Opcode.cdlen
    else if op == 0x53
    then Opcode.bstore
    else if op == 0x54
    then Opcode.beq
    else if op == 0x55
    then Opcode.blen
    else if op == 0x56
    then Opcode.bhash
    else if op == 0x67
    then Opcode.callerb
    else if op == 0x68
    then Opcode.selfb
    else if op == 0x73
    then Opcode.returnb
    else Opcode.unknown

unfoldable pub gas_cost : Opcode → ℕ
gas_cost Opcode.sstore = 100
gas_cost Opcode.bstore = 100
gas_cost Opcode.callerb = 100
gas_cost Opcode.selfb = 100
gas_cost Opcode.log = 50
gas_cost Opcode.sload = 20
gas_cost Opcode.beq = 20
gas_cost Opcode.bhash = 20
gas_cost Opcode.mix = 20
gas_cost Opcode.push = 3
gas_cost _ = 1
