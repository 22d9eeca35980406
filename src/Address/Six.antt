-- ===== src/Address/Six.antt =====
-- The IPv6 forms of src/network.cpp: `ip6` on a string, and the IPv6 branch of `to_string`. The
-- eight words of an address are a function from their positions, with the values that ntohs gives.
pub mod Groups
mod Tests
use net_port.Common.{
  ℕ, zero, suc, ◌+◌, ◌-◌, ◌*◌, ◌≡◌, Bool, true, false, ◌&&◌, ◌||◌, List, [], ◌∷◌, ◌++◌, Option,
  none, some, ◌==◌, leb, ltb, if◌then◌else◌, not, u16,
}
use net_port.Buffer.{Buffer, set_byte}
use net_port.Address.Text.{colon, is_digit, number_text, port_text}

-- The value of a hexadecimal character, if it is one
unfoldable pub hex_value : ℕ → Option ℕ
hex_value c =
    if is_digit c
    then some (c - 48)
    else if leb 65 c && leb c 70
    then some (c - 65 + 10)
    else if leb 97 c && leb c 102
    then some (c - 97 + 10)
    else none

-- The variables of the loop of ip6. `ltype` tells whether the character before was a digit (1), a
-- colon (2) or another.
pub record Reader : Type 0 where
  pub sect : ℕ
  pub xpand : ℕ
  pub ltype : ℕ
  pub ipev : ℕ
  pub aa6 : Buffer

-- A colon ends a section; `none` is the return for an invalid string.
unfoldable pub end_section : Reader → Option Reader
end_section r =
    let s : Reader = record r {
      aa6 = set_byte r.aa6 r.sect r.ipev;
      ipev = 0;
      sect = r.sect + 1;
      ltype = 2;
    } in
    if r.ltype == 2
    then (if r.xpand == 0 then some (record s { xpand = r.sect }) else none)
    else some s

unfoldable pub read_char : ℕ → Reader → Option Reader
unfolding end_section
read_char c r = elim (hex_value c) [
  | some v ↦ some (record r { ipev = u16 (r.ipev * 16 + v); ltype = 1 })
  | none ↦ if c == colon then end_section r else some (record r { ltype = 0 })
]

-- The loop, which stops at the end of the text or after eight sections
unfoldable pub ip6_loop : List ℕ → Reader → Option Reader
ip6_loop [] r = some r
ip6_loop (c ∷ cs) r = elim (ltb r.sect 8) [
  | false ↦ some r
  | true ↦ elim (read_char c r) [ none ↦ none | some s ↦ ip6_loop cs s ]
]

-- The words from `xpand` on are moved to the end, and those between are filled. With
-- `xpand + count` at `sect + 1`, the first loop moves `count` words, the last one first.
unfoldable pub move_words : ℕ → ℕ → ℕ → Buffer → Buffer
move_words zero i xofs aa6 = aa6
move_words (suc count) i xofs aa6 = move_words count (i - 1) xofs (set_byte aa6 i (aa6 (i - xofs)))

unfoldable pub fill_words : ℕ → ℕ → Buffer → Buffer
fill_words zero i aa6 = aa6
fill_words (suc count) i aa6 = fill_words count (i - 1) (set_byte aa6 i 0xfefe)

unfoldable pub expand : Reader → Buffer
unfolding move_words fill_words
expand r =
    let xofs = 7 - r.sect in
    let count = r.sect + 1 - r.xpand in
    fill_words (8 - count - r.xpand) (7 - count) (move_words count 7 xofs r.aa6)

-- What ip6 makes of the words: it returns early, it stores behind the eight words, or it has read
-- them.
pub data Reading : Type 0 where
  invalid : Reading
  overrun : Reading
  words : (aa6 : Buffer) → Reading

unfoldable pub finish_words : Reader → Reading
unfolding expand
finish_words r =
    if ltb r.sect 8
    then (let s : Reader = record r { aa6 = set_byte r.aa6 r.sect r.ipev } in
        words (if not (r.xpand == 0) && ltb r.xpand 8 then expand s else s.aa6))
    else overrun

unfoldable pub ip6 : List ℕ → Buffer → Reading
unfolding ip6_loop read_char
ip6 text aa6 =
    elim (ip6_loop text (record { sect = 0; xpand = 0; ltype = 0; ipev = 0; aa6 = aa6 })) [
      | none ↦ invalid
      | some r ↦ finish_words r
    ]

abbrev pub hex_text : ℕ → List ℕ
hex_text w = number_text 16 w

-- The eight words with a colon between each two, before `rest`
abbrev pub groups_text : Buffer → List ℕ → List ℕ
groups_text aa6 rest =
    hex_text (aa6 0)
    ++ (colon ∷ hex_text (aa6 1)
        ++ (colon ∷ hex_text (aa6 2)
            ++ (colon ∷ hex_text (aa6 3)
                ++ (colon ∷ hex_text (aa6 4)
                    ++ (colon ∷ hex_text (aa6 5)
                        ++ (colon ∷ hex_text (aa6 6) ++ (colon ∷ hex_text (aa6 7) ++ rest)))))))

-- "[", the words, "]:" and the port
unfoldable pub to_string : Buffer → ℕ → List ℕ
to_string aa6 port = 91 ∷ groups_text aa6 (93 ∷ colon ∷ port_text port)
