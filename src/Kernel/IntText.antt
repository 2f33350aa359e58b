-- ===== src/Kernel/IntText.antt =====
-- `INTTOCHARPOINT` of kernel/kernel.cpp, which prints numbers by a table.
pub mod Table
pub mod Decimal
pub mod Shape
use Prim.Native.String.{String}
use sector_os.Base.{ℕ, Option, none, some, List, [], ◌∷◌, ◌++◌, ◌==◌, if◌then◌else◌}
use Table.{
  Cases, cases_from_0, cases_from_50, cases_from_100, cases_from_157, cases_from_207,
  cases_from_257, cases_from_307, cases_from_357, cases_from_2027,
}

find_case : ℕ → Cases → String
find_case n [] = "NaN"
find_case n ((m, text) ∷ rest) = if n == m then text else find_case n rest

all_cases : Cases
unfolding cases_from_0 cases_from_50 cases_from_100 cases_from_157 cases_from_207 cases_from_257
    cases_from_307 cases_from_357 cases_from_2027
all_cases =
    cases_from_0
    ++ (cases_from_50
        ++ (cases_from_100
            ++ (cases_from_157
                ++ (cases_from_207
                    ++ (cases_from_257
                        ++ (cases_from_307 ++ (cases_from_357 ++ (cases_from_2027))))))))

-- The argument is an `int`; a negative one has no case either.
unfoldable pub int_to_char_point : ℕ → String
unfolding find_case all_cases
int_to_char_point num = find_case num all_cases
