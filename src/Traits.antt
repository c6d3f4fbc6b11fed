-- ===== src/Traits.antt =====
-- libs/codec/traits.hpp: ASN.1 tags.
use asn1pp.Prelude.{ℕ, Bool, true, false, ◌&&◌, ◌==◌, if◌then◌else◌}

pub data UniversalTag : Type 0 where
  end_of_content boolean integer bit_string octet_string null object_identifier : UniversalTag
  object_descriptor external real enumerated embedded_pdv utf8_string relative_oid : UniversalTag
  sequence set numeric_string printable_string teletex_string videotex_string : UniversalTag
  ia5_string utc_time generalized_time graphic_string visible_string general_string : UniversalTag
  universal_string character_string bmp_string date time_of_day datetime duration : UniversalTag
  rel_uri rel_uris : UniversalTag

-- `static_cast<uint32_t>(t)`
abbrev pub universal_number : UniversalTag → ℕ
universal_number UniversalTag.end_of_content = 0
universal_number UniversalTag.boolean = 1
universal_number UniversalTag.integer = 2
universal_number UniversalTag.bit_string = 3
universal_number UniversalTag.octet_string = 4
universal_number UniversalTag.null = 5
universal_number UniversalTag.object_identifier = 6
universal_number UniversalTag.object_descriptor = 7
universal_number UniversalTag.external = 8
universal_number UniversalTag.real = 9
universal_number UniversalTag.enumerated = 10
universal_number UniversalTag.embedded_pdv = 11
universal_number UniversalTag.utf8_string = 12
universal_number UniversalTag.relative_oid = 13
universal_number UniversalTag.sequence = 16
universal_number UniversalTag.set = 17
universal_number UniversalTag.numeric_string = 18
universal_number UniversalTag.printable_string = 19
universal_number UniversalTag.teletex_string = 20
universal_number UniversalTag.videotex_string = 21
universal_number UniversalTag.ia5_string = 22
universal_number UniversalTag.utc_time = 23
universal_number UniversalTag.generalized_time = 24
universal_number UniversalTag.graphic_string = 25
universal_number UniversalTag.visible_string = 26
universal_number UniversalTag.general_string = 27
universal_number UniversalTag.universal_string = 28
universal_number UniversalTag.character_string = 29
universal_number UniversalTag.bmp_string = 30
universal_number UniversalTag.date = 31
universal_number UniversalTag.time_of_day = 32
universal_number UniversalTag.datetime = 33
universal_number UniversalTag.duration = 34
universal_number UniversalTag.rel_uri = 35
universal_number UniversalTag.rel_uris = 36

pub data TagClass : Type 0 where
  universal application context_specific private_class : TagClass

-- `static_cast<uint8_t>(cls)`
abbrev pub class_code : TagClass → ℕ
class_code TagClass.universal = 0
class_code TagClass.application = 1
class_code TagClass.context_specific = 2
class_code TagClass.private_class = 3

-- `static_cast<tag_class>(n)`, for the two bits of an identifier octet.
abbrev pub class_of : ℕ → TagClass
class_of n =
    if n == 0
    then TagClass.universal
    else if n == 1
    then TagClass.application
    else if n == 2
    then TagClass.context_specific
    else TagClass.private_class

pub record Tag : Type 0 where
  pub cls : TagClass
  pub constructed : Bool
  pub number : ℕ

abbrev bool_eq : Bool → Bool → Bool
bool_eq true b = b
bool_eq false true = false
bool_eq false false = true

-- `operator==`
abbrev pub tag_eq : Tag → Tag → Bool
tag_eq s t =
    class_code s.cls == class_code t.cls
    && (bool_eq s.constructed t.constructed && s.number == t.number)

abbrev pub make_universal : UniversalTag → Bool → Tag
make_universal t c = record {
  cls = TagClass.universal;
  constructed = c;
  number = universal_number t;
}

abbrev pub make_context_specific : ℕ → Bool → Tag
make_context_specific n c = record { cls = TagClass.context_specific; constructed = c; number = n }

-- `is_primitive`
pub is_primitive : UniversalTag → Bool
is_primitive UniversalTag.end_of_content = false
is_primitive UniversalTag.external = false
is_primitive UniversalTag.embedded_pdv = false
is_primitive UniversalTag.sequence = false
is_primitive UniversalTag.set = false
is_primitive UniversalTag.duration = false
is_primitive UniversalTag.rel_uri = false
is_primitive UniversalTag.rel_uris = false
is_primitive _ = true

-- `is_constructed`
pub is_constructed : UniversalTag → Bool
is_constructed UniversalTag.sequence = true
is_constructed UniversalTag.set = true
is_constructed UniversalTag.duration = true
is_constructed UniversalTag.rel_uris = true
is_constructed _ = false
