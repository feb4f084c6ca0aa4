-- ===== src/Tests/Texts.antt =====
-- The handling of text at concrete inputs.
use cpp_network_homework.Prelude.{◌≡◌, refl, true, some, arith, Bytes, codes}
use cpp_network_homework.Text.{is_ws, trim}
use cpp_network_homework.Text.Trim.{IsTrimOf, trim-IsTrimOf}
use cpp_network_homework.Text.Number.{pos, is_digit, digits_value}
use cpp_network_homework.Text.Stream.{parse_command}
use cpp_network_homework.Text.Command.{IsWord, IsDecimal, parse_command-command_line}
use cpp_network_homework.Text.Console.{read_port, read_port-IsDecimal}

trim-IsTrimOf_example : (t : Bytes) × (trim (codes " hi\n") ≡ some t) × IsTrimOf (codes " hi\n") t
trim-IsTrimOf_example = trim-IsTrimOf (codes " hi\n") (omega arith)

get_IsWord : IsWord (codes "get")
unfolding is_ws
get_IsWord = (refl, (refl, (refl, tt)))

parse_command-command_line_example : parse_command (codes "get get get 12") ≡ record {
  command = codes "get";
  filename = codes "get";
  fiction = codes "get";
  size_fict = pos (digits_value 0 (codes "12"));
}
parse_command-command_line_example =
    parse_command-command_line (codes "get") (codes "get") (codes "get") b' ' b' ' b' ' (codes "12")
      get_IsWord get_IsWord get_IsWord space space space digits (unfold digits_value in omega arith)
  where
    space : is_ws b' ' ≡ true
    space = unfold is_ws in refl

    digits : IsDecimal (codes "12")
    digits = unfold is_digit in (refl, (refl, tt))

read_port-IsDecimal_example :
    read_port (record { rest = codes "80\nhello"; good = true })
    ≡ some (digits_value 0 (codes "80"), codes "hello")
read_port-IsDecimal_example =
    read_port-IsDecimal b'8' (codes "0") (codes "hello") (unfold is_digit in (refl, (refl, tt)))
      (unfold digits_value in omega arith)
