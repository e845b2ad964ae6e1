-- ===== src/Auth/Tests.antt =====
-- The properties of src/auth at a list of two rules and a file of one user.
use iotd.Prelude.{◌≡◌, refl, insert, some, List, [], ◌∷◌, HashMap, Bytes}
use iotd.Protocol.Packet.{ascii}
use iotd.Auth.Types.{Credentials}
use iotd.Auth.Acl.{Permission, AclRule}
use iotd.Auth.Text.{
  lines, trim, trim_start, trim_end, strip_all, strip_start, strip_end, split_once,
}
use iotd.Auth.PasswordFile as PasswordFile

abbrev rules : List AclRule
rules =
    record {
      client_id = ascii "alice";
      permission = Permission.publish;
      topic_filter = ascii "door";
    }
    ∷ record {
      client_id = ascii "bob";
      permission = Permission.publish_subscribe;
      topic_filter = ascii "door/#";
    }
    ∷ []

abbrev users : HashMap Bytes Bytes
users = (ascii "alice", ascii "secret") ∷ []

abbrev alice : Credentials
alice = record {
  username = some (ascii "alice");
  password = some (ascii "secret");
  client_id = ascii "a";
}

-- A comment, a user name with white space around it, an empty line, and the same name again.
read_users :
    PasswordFile.new (some (ascii "#c\n  ann:one \r\n\nann:t:wo"))
    ≡ some ((ascii "ann", ascii "t:wo") ∷ [])
unfolding PasswordFile.new PasswordFile.insert_lines PasswordFile.insert_line lines trim trim_start
    trim_end strip_all strip_start strip_end split_once insert
read_users = refl
